-- ===== src/Chardev/Rx/Stream/Read.antt =====
-- One call of `readChannelMsg`: the read that is repeated, and the bytes that it puts behind those
-- kept from before.
use linux_ant_hal.Base.{
  ℕ, zero, suc, ◌+◌, ◌-◌, ◌<◌, ◌≤◌, ◌≡◌, refl, ap, ◌∙◌, inl, inr, false, ◌&&◌, some, List, ◌∷◌,
  ◌++◌, arith, All, ℤ, pos, is_neg, Bool-cases,
}
use mathlib.Core.Path.{ap₂}
use linux_ant_hal.Os.{Os, Trace, read_file}
use linux_ant_hal.Chardev.State.{Channel, Hal, ant_hci_max_msg_size}
use linux_ant_hal.Chardev.Power.{is_eagain}
use linux_ant_hal.Chardev.Rx.{
  Memory, RxBuffer, slice, store, accept_read, read_retry, read_channel_msg,
}
use linux_ant_hal.Chardev.Rx.Frames.{Frames}
use linux_ant_hal.Chardev.Rx.Parse.{IsWellFormed, LoopEnds, accept_lem, slice_eq}

slice-add : (m : Memory) (i k n : ℕ) → slice m i (k + n) ≡ slice m i k ++ slice m (i + k) n
slice-add m i zero n = slice_eq m (omega arith) (omega arith)
slice-add m i (suc k) n =
    slice_eq m {j = i} {n = suc (k + n)} refl (omega arith)
    ∙ ap (◌∷◌ (m i))
        (slice-add m (i + 1) k n ∙ ap (◌++◌ (slice m (i + 1) k)) (slice_eq m (omega arith) refl))

store_below : (m src : Memory) (i n j k : ℕ) → j + k ≤ i → slice (store m i n src) j k ≡ slice m j k
store_below m src i n j zero h = refl
store_below m src i n j (suc k) h =
    let front : store m i n src j ≡ m j = ground arith in
    ap₂ ◌∷◌ front (store_below m src i n (j + 1) k (omega arith))

store_within :
    (m src : Memory) (i n j k d : ℕ)
    → d ≡ i + j
    → j + k ≤ n
    → slice (store m i n src) d k ≡ slice src j k
store_within m src i n j zero d e h = refl
store_within m src i n j (suc k) d e h =
    let here : src (d - i) ≡ src j = ap src (omega arith) in
    let front : store m i n src d ≡ src j = ground arith in
    ap₂ ◌∷◌ front (store_within m src i n (j + 1) k (d + 1) (omega arith) (omega arith))

-- The row after a read holds what it held, and what was read behind that.
slice-store :
    (m src : Memory) (i n : ℕ) → slice (store m i n src) 0 (n + i) ≡ slice m 0 i ++ slice src 0 n
slice-store m src i n =
    slice_eq (store m i n src) {j = 0} {n = i + n} refl (omega arith)
    ∙ slice-add (store m i n src) 0 i n
    ∙ ap₂ ◌++◌ (store_below m src i n 0 i (omega arith))
        (store_within m src i n 0 n (0 + i) (omega arith) (omega arith))

-- The trace after so many reads.
abbrev pub reads : ℤ → ℕ → ℕ → Trace → Trace
reads fd room zero t = t
reads fd room (suc k) t = reads fd room k (read_file fd room ∷ t)

-- If the read after `k` others does not fail with EAGAIN, then the repeated read ends with more
-- than `k` rounds, and its result is no such failure either.
pub read_retry_ends :
    (os : Os) (k fuel : ℕ) (fd : ℤ) (room : ℕ) (h : Hal) (t : Trace)
    → let u = reads fd room k t in
      is_neg (os.ret u (read_file fd room)) && is_eagain (os.errno (read_file fd room ∷ u)) ≡ false
      → k < fuel
      → (r : ℤ) × (u : Trace) × (read_retry os fuel fd room h t ≡ (some r, h, u))
        × (is_neg r && is_eagain (os.errno u) ≡ false)
unfolding read_retry
read_retry_ends os k zero fd room h t e lt = absurd (omega arith)
read_retry_ends os zero (suc fuel) fd room h t e lt =
    (os.ret t (read_file fd room), read_file fd room ∷ t, rw e, e)
read_retry_ends os (suc k) (suc fuel) fd room h t e lt =
    elim (Bool-cases
      (is_neg (os.ret t (read_file fd room)) && is_eagain (os.errno (read_file fd room ∷ t)))) [
        | inl again ↦
            let (r, u, out, stop) =
              read_retry_ends os k fuel fd room h (read_file fd room ∷ t) e (omega arith) in
            (r, u, rw again out, stop)
        | inr first ↦ (os.ret t (read_file fd room), read_file fd room ∷ t, rw first, first)
      ]

-- A call of `readChannelMsg` whose read returns `n` bytes handles the messages of the whole packets
-- in the bytes kept from before and those read, and keeps the rest.
pub read_channel_msg_lem :
    (os : Os) (fuel n : ℕ) (b : RxBuffer) (c : Channel) (h : Hal) (t u : Trace)
    {msgs : List (List ℕ)} {left : List ℕ}
    → read_retry os fuel c.fd (ant_hci_max_msg_size - b.length) h t ≡ (some (pos n), h, u)
    → Frames (slice b.bytes 0 b.length ++ slice (os.received u) 0 n) msgs left
    → All IsWellFormed msgs
    → LoopEnds os msgs left c h u (read_channel_msg os fuel b c h t)
unfolding read_channel_msg accept_read
read_channel_msg_lem os fuel n b c h t u r fr w =
    let after_read : RxBuffer = record b { bytes = store b.bytes b.length n (os.received u) } in
    let (b', out, left) =
      accept_lem os n after_read c h u (slice-store b.bytes (os.received u) b.length n) fr w in
    (b', rw (r, accept_read) out, left)
