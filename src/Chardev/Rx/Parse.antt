-- ===== src/Chardev/Rx/Parse.antt =====
-- The loop of `readChannelMsg` handles the packets of the bytes in the buffer, one after the other.
use linux_ant_hal.Base.{
  ℕ, zero, suc, ◌+◌, ◌-◌, ◌<◌, ◌≤◌, ◌≡◌, refl, sym, ap, ◌∙◌, lt→ltb, le→ltb, ltb, ◌⊎◌, inl, inr,
  Option, some, List, [], ◌∷◌, ◌++◌, arith, length, length-append, ◌==◌, get_or, All, ℤ, pos,
  minus_one, is_neg, if◌then◌else◌,
}
use mathlib.Core.Path.{ap₂, subst}
use linux_ant_hal.Os.{Os, M, Trace, ◌>>=◌, ◌>>◌, pure}
use linux_ant_hal.Chardev.State.{Channel, Hal, ant_mesg_flow_control}
use linux_ant_hal.Chardev.Rx.{
  Memory, RxBuffer, slice, move_down, keepalive_resp, eq_bytes, is_keepalive_response,
  set_flow_control, hand_over, handle_packet, packet_loop, accept,
}
use linux_ant_hal.Chardev.Rx.Frames.{Frames, done, partial, whole}

-- An ANT message has a length byte, an identifier and a byte of data at least, and the length byte
-- counts the data.
abbrev pub IsWellFormed : List ℕ → Type 0
IsWellFormed msg = (3 ≤ length msg) × (get_or msg 0 0 + 2 ≡ length msg)

module _ (os : Os) where
  -- What is to be done with a message: a flow control message sets the flag of the channel, the
  -- answer to a keepalive message is dropped, all others go to the client.
  unfoldable pub handle_message : List ℕ → Channel → M Hal (ℤ × Channel)
  handle_message msg c =
      if get_or msg 1 0 == ant_mesg_flow_control
      then set_flow_control os c (get_or msg 2 0)
      else if eq_bytes msg keepalive_resp
      then pure (pos 0, c)
      else do hand_over c.rx_callback (length msg) msg; pure (pos 0, c)

  -- The messages in order, up to the first failure.
  unfoldable pub handle_all : List (List ℕ) → Channel → M Hal (ℤ × Channel)
  handle_all [] c = pure (pos 0, c)
  handle_all (msg ∷ msgs) c =
      let rest = handle_all msgs in
      do (r, c') ← handle_message msg c; if is_neg r then pure (minus_one, c') else rest c'

pub length-slice : (m : Memory) (i n : ℕ) → length (slice m i n) ≡ n
length-slice m i zero = refl
length-slice m i (suc n) = ap suc (length-slice m (i + 1) n)

keepalive_lem :
    (m : Memory) (i n : ℕ)
    → IsWellFormed (slice m i n)
    → is_keepalive_response m i ≡ eq_bytes (slice m i n) keepalive_resp
unfolding is_keepalive_response eq_bytes
keepalive_lem m i zero w = absurd (omega arith)
keepalive_lem m i (suc zero) w = absurd (omega arith)
keepalive_lem m i (suc (suc zero)) w = absurd (omega arith)
keepalive_lem m i (suc (suc (suc zero))) w = ground arith
keepalive_lem m i (suc (suc (suc (suc zero)))) w = ground arith
keepalive_lem m i (suc (suc (suc (suc (suc zero))))) w = refl
keepalive_lem m i (suc (suc (suc (suc (suc (suc n)))))) w = ground arith

-- A whole packet is handled as its message is.
handle_packet_lem :
    (os : Os) (m : Memory) (i n : ℕ) (c : Channel) (h : Hal) (t : Trace)
    → IsWellFormed (slice m (i + 1) n)
    → handle_packet os m i n c h t ≡ handle_message os (slice m (i + 1) n) c h t
unfolding handle_packet handle_message
handle_packet_lem os m i zero c h t w = absurd (omega arith)
handle_packet_lem os m i (suc zero) c h t w = absurd (omega arith)
handle_packet_lem os m i (suc (suc zero)) c h t w = absurd (omega arith)
handle_packet_lem os m i (suc (suc (suc n))) c h t w =
    let e1 : m (i + 1 + 2) ≡ m (i + 1 + 1 + 1) = ap m (omega arith) in
    rw (e1, keepalive_lem m (i + 1) (suc (suc (suc n))) w, length-slice m (i + 1 + 1 + 1 + 1) n)

index_eq : (m : Memory) {i j : ℕ} → i ≡ j → m i ≡ m j
index_eq m p = ap m p

pub slice_eq : (m : Memory) {i j k n : ℕ} → i ≡ j → k ≡ n → slice m i k ≡ slice m j n
slice_eq m p q = ap₂ (slice m) p q

slice_front : (m : Memory) (k : ℕ) {x : ℕ} {xs : List ℕ} → slice m 0 k ≡ x ∷ xs → m 0 ≡ x
slice_front m zero e = cc
slice_front m (suc k) e = cc

slice-append :
    (m : Memory) (i k : ℕ) (xs ys : List ℕ)
    → slice m i k ≡ xs ++ ys
    → (slice m i (length xs) ≡ xs) × (slice m (i + length xs) (k - length xs) ≡ ys)
slice-append m i k [] ys e = (refl, slice_eq m (omega arith) (omega arith) ∙ e)
slice-append m i zero (x ∷ xs) ys e = cc
slice-append m i (suc k) (x ∷ xs) ys e =
    let head : m i ≡ x = cc in
    let tail : slice m (i + 1) k ≡ xs ++ ys = cc in
    let (p, q) = slice-append m (i + 1) k xs ys tail in
    (cc, slice_eq m (omega arith) (omega arith) ∙ q)

slice-move_down :
    (m : Memory) (i n j k : ℕ) → j + k ≤ n → slice (move_down m i n) j k ≡ slice m (i + j) k
slice-move_down m i n j zero h = refl
slice-move_down m i n j (suc k) h =
    let head : move_down m i n j ≡ m (i + j) = rw (lt→ltb j n (omega arith)) in
    let tail : slice (move_down m i n) (j + 1) k ≡ slice m (i + j + 1) k =
      slice-move_down m i n (j + 1) k (omega arith) ∙ slice_eq m (omega arith) refl in
    ap₂ ◌∷◌ head tail

-- A failure is -1.
pub handle_message_result :
    (os : Os) (msg : List ℕ) (c : Channel) (h : Hal) (t : Trace)
    → ((handle_message os msg c h t).0.0 ≡ pos 0) ⊎ ((handle_message os msg c h t).0.0 ≡ minus_one)
unfolding handle_message set_flow_control
handle_message_result os msg c h t = ground arith

-- A packet that is not whole, moved to the start of the row.
abbrev pub kept : ℕ → ℕ → RxBuffer → RxBuffer
kept total i b = record { bytes = move_down b.bytes i (total - i); length = total - i }

module _ (os : Os) (total i : ℕ) (b : RxBuffer) (c : Channel) (h : Hal) (t : Trace) where
  pub loop_end :
      (fuel : ℕ)
      → total ≤ i
      → packet_loop os (suc fuel) total i b c h t ≡ (some (pos 0, c, b), h, t)
  unfolding packet_loop
  loop_end fuel e = rw (le→ltb i total e)

  -- One round.
  pub loop_step :
      (fuel : ℕ)
      → i < total
      → packet_loop os (suc fuel) total i b c h t ≡ (
          let next = i + 1 + 0 + b.bytes (i + 0) in
          if ltb total (b.bytes (i + 0) + 1 + 0 + i)
          then packet_loop os fuel total next (kept total i b) c h t
          else let ((r, c'), h', t') = handle_packet os b.bytes i (b.bytes (i + 0)) c h t in
            if is_neg r
            then (some (minus_one, c', b), h', t')
            else packet_loop os fuel total next b c' h' t')
  unfolding packet_loop
  loop_step fuel e = ground arith

-- How the loop has ended, where the messages in the bytes are `msgs` and `left` is left over: as the
-- handling of the messages has, and with what is left over in the buffer unless that failed.
abbrev pub LoopEnds :
    Os
    → List (List ℕ)
    → List ℕ
    → Channel
    → Hal
    → Trace
    → Option (ℤ × Channel × RxBuffer) × Hal × Trace
    → Type 0
LoopEnds os msgs left c h t out =
    let ((r, c'), h', t') = handle_all os msgs c h t in
    (b' : RxBuffer) × (out ≡ (some (r, c', b'), h', t'))
    × ((r ≡ minus_one) ⊎ (slice b'.bytes 0 b'.length ≡ left))

-- A whole packet at the front of the bytes from index `i` on.
packet_message :
    (os : Os) (m : Memory) (i k : ℕ) (msg rest : List ℕ) (c : Channel) (h : Hal) (t : Trace)
    → IsWellFormed msg
    → slice m i (suc k) ≡ length msg ∷ (msg ++ rest)
    → (handle_packet os m i (m (i + 0)) c h t ≡ handle_message os msg c h t)
      × (m (i + 0) ≡ length msg)
      × (k ≡ length msg + length rest)
      × (slice m (i + 1 + 0 + m (i + 0)) (length rest) ≡ rest)
packet_message os m i k msg rest c h t w e =
    let front : m i ≡ length msg = cc in
    let size : m (i + 0) ≡ length msg = index_eq m (omega arith) ∙ front in
    let tail : slice m (i + 1) k ≡ msg ++ rest = cc in
    let (p, q) = slice-append m (i + 1) k msg rest tail in
    let total : k ≡ length msg + length rest =
      omega (arith, ap length tail, length-append msg rest, length-slice m (i + 1) k) in
    let handled : handle_packet os m i (length msg) c h t ≡ handle_message os msg c h t =
      handle_packet_lem os m i (length msg) c h t (subst IsWellFormed (sym p) w)
      ∙ ap (λ x. handle_message os x c h t) p in
    (
      ap (λ n. handle_packet os m i n c h t) size ∙ handled,
      size,
      total,
      slice_eq m (omega arith) (omega arith) ∙ q,
    )

-- The loop, from index `i` on with `k` bytes to go.
packet_loop_lem :
    (os : Os) (fuel total i k : ℕ) (b : RxBuffer) {bytes left : List ℕ} {msgs : List (List ℕ)}
    (c : Channel) (h : Hal) (t : Trace)
    → total ≡ i + k
    → k < fuel
    → b.length ≡ 0
    → slice b.bytes i k ≡ bytes
    → Frames bytes msgs left
    → All IsWellFormed msgs
    → LoopEnds os msgs left c h t (packet_loop os fuel total i b c h t)
unfolding handle_all
packet_loop_lem os zero total i k b c h t e f z q fr w = absurd (omega arith)
packet_loop_lem os (suc fuel) total i zero b c h t e f z q done w =
    (b, loop_end os total i b c h t fuel (omega arith), inr (ap (slice b.bytes 0) z))
packet_loop_lem os (suc fuel) total i zero b c h t e f z q (partial n rest s) w = cc
packet_loop_lem os (suc fuel) total i zero b c h t e f z q (whole msg rest e' fr) w = cc
packet_loop_lem os (suc fuel) total i (suc k) b c h t e f z q done w = cc
packet_loop_lem os (suc zero) total i (suc k) b c h t e f z q (partial n rest s) w =
    absurd (omega arith)
packet_loop_lem os (suc (suc fuel)) total i (suc k) b c h t e f z q (partial n rest s) w =
    let front : b.bytes i ≡ n = cc in
    let size : b.bytes (i + 0) ≡ n = index_eq b.bytes (omega arith) ∙ front in
    let count : k ≡ length rest = omega (arith, ap length q, length-slice b.bytes i (suc k)) in
    let next = i + 1 + 0 + b.bytes (i + 0) in
    let moved : slice (move_down b.bytes i (total - i)) 0 (total - i) ≡ n ∷ rest =
      slice-move_down b.bytes i (total - i) 0 (total - i) (omega arith)
      ∙ slice_eq b.bytes {j = i} {n = suc k} (omega arith) (omega arith)
      ∙ q in
    (
      kept total i b,
      ground (
        arith,
        loop_step os total i b c h t (suc fuel) (omega arith),
        loop_end os total next (kept total i b) c h t fuel (omega arith),
      ),
      inr moved,
    )
packet_loop_lem os (suc fuel) total i (suc k) b c h t e f z q (whole msg rest e' fr) w =
    let (same, size, count, tail) = packet_message os b.bytes i k msg rest c h t w.0 (q ∙ e') in
    let ((r, c'), h', t') = handle_message os msg c h t in
    let next = i + 1 + 0 + b.bytes (i + 0) in
    let (b', out, kept) =
      packet_loop_lem os fuel total next (length rest) b c' h' t' (omega arith) (omega arith) z tail
        fr w.1 in
    elim (handle_message_result os msg c h t) [
      | inl good ↦
          (b', ground (arith, loop_step os total i b c h t fuel (omega arith)), ground arith)
      | inr bad ↦ (b, ground (arith, loop_step os total i b c h t fuel (omega arith)), ground arith)
    ]

-- What `readChannelMsg` does with the bytes in the buffer, old and new: it handles the messages of
-- the whole packets among them, and keeps the rest.
pub accept_lem :
    (os : Os) (n : ℕ) (b : RxBuffer) {bytes left : List ℕ} {msgs : List (List ℕ)} (c : Channel)
    (h : Hal) (t : Trace)
    → slice b.bytes 0 (n + b.length) ≡ bytes
    → Frames bytes msgs left
    → All IsWellFormed msgs
    → LoopEnds os msgs left c h t (accept os n b c h t)
unfolding accept handle_all
accept_lem os n b c h t q done w =
    let none_left : n + b.length ≡ 0 = sym (length-slice b.bytes 0 (n + b.length)) ∙ ap length q in
    (record b { length = n + b.length }, ground arith, inr q)
accept_lem os n b c h t q (partial k rest s) w =
    let count : n + b.length ≡ suc (length rest) =
      sym (length-slice b.bytes 0 (n + b.length)) ∙ ap length q in
    let front : b.bytes 0 ≡ k = slice_front b.bytes (n + b.length) q in
    (record b { length = n + b.length }, ground arith, inr q)
accept_lem os n b {msgs = ms} c h t q (whole msg rest e fr) w =
    let count : n + b.length ≡ suc (length (msg ++ rest)) =
      sym (length-slice b.bytes 0 (n + b.length)) ∙ ap length (q ∙ e) in
    let front : b.bytes 0 ≡ length msg = slice_front b.bytes (n + b.length) (q ∙ e) in
    let (b', out, left) =
      packet_loop_lem os (n + b.length + 1) (n + b.length) 0 (n + b.length)
        (record b { length = 0 }) c h t (omega arith) (omega arith) refl q (whole msg rest e fr)
        w in
    (b', ground (arith, out, length-append msg rest), left)
