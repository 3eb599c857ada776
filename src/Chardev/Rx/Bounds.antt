-- ===== src/Chardev/Rx/Bounds.antt =====
-- The row of the receive buffer: whatever bytes arrive, the loop of `readChannelMsg` ends, and what
-- it keeps leaves room for the next read.
use linux_ant_hal.Base.{
  ℕ, zero, suc, ◌+◌, ◌-◌, ◌<◌, ◌≤◌, ◌≡◌, refl, ◌&&◌, ◌∷◌, inl, inr, false, Option, some, arith, ℤ,
  pos, negsuc, minus_one, is_neg, ltb, Bool-cases,
}
use native.Mathlib.Decide.{dec_lt}
use linux_ant_hal.Os.{Os, Trace, read_file}
use linux_ant_hal.Chardev.Power.{is_eagain}
use linux_ant_hal.Chardev.Rx.Stream.Read.{reads, read_retry_ends}
use linux_ant_hal.Chardev.State.{Channel, Hal, ant_hci_max_msg_size}
use linux_ant_hal.Chardev.Rx.{
  Memory, RxBuffer, store, handle_packet, packet_loop, accept, accept_read, read_channel_msg,
}
use linux_ant_hal.Chardev.Rx.Parse.{kept, loop_end, loop_step}

-- The row holds bytes, and of a packet that is not whole at most 255.
pub record IsValid (b : RxBuffer) : Type 0 where
  pub short : b.length ≤ 255
  pub small : (j : ℕ) → b.bytes j < 256

-- The call has ended and left a valid row.
abbrev pub EndsValid : Option (ℤ × Channel × RxBuffer) × Hal × Trace → Type 0
EndsValid out =
    (r : ℤ) × (c : Channel) × (b : RxBuffer) × (h : Hal) × (t : Trace) × (out
      ≡ (some (r, c, b), h, t))
    × IsValid b

pub kept-IsValid :
    (total i : ℕ) (b : RxBuffer)
    → IsValid b
    → total < b.bytes (i + 0) + 1 + 0 + i
    → IsValid (kept total i b)
kept-IsValid total i b v s = record {
  short = omega (arith, v.small (i + 0));
  small = λ j. ground (arith, v.small (i + j), v.small j);
}

packet_loop_ends :
    (os : Os) (fuel total i : ℕ) (b : RxBuffer) (c : Channel) (h : Hal) (t : Trace)
    → total - i < fuel
    → IsValid b
    → EndsValid (packet_loop os fuel total i b c h t)
packet_loop_ends os zero total i b c h t f v = absurd (omega arith)
packet_loop_ends os (suc fuel) total i b c h t f v = elim (dec_lt i total) [
  | no over ↦ (pos 0, c, b, h, t, loop_end os total i b c h t fuel (omega arith), v)
  | yes more ↦
      rw (loop_step os total i b c h t fuel more)
        (elim (Bool-cases (ltb total (b.bytes (i + 0) + 1 + 0 + i))) [
          | inl part ↦ rw part (
              packet_loop_ends os fuel total (i + 1 + 0 + b.bytes (i + 0)) (kept total i b) c h t
                (omega arith) (kept-IsValid total i b v (ground arith)))
          | inr whole ↦
              let ((r, c'), h', t') = handle_packet os b.bytes i (b.bytes (i + 0)) c h t in
              rw whole (elim (Bool-cases (is_neg r)) [
                | inl bad ↦ rw bad (minus_one, c', b, h', t', refl, v)
                | inr good ↦ rw good (
                    packet_loop_ends os fuel total (i + 1 + 0 + b.bytes (i + 0)) b c' h' t'
                      (omega arith) v)
              ])
        ])
]

-- Whatever bytes have arrived: `readChannelMsg` ends once its read has, and the row stays valid.
pub accept_ends :
    (os : Os) (n : ℕ) (b : RxBuffer) (c : Channel) (h : Hal) (t : Trace)
    → IsValid b
    → EndsValid (accept os n b c h t)
unfolding accept
accept_ends os n b c h t v = elim (Bool-cases (ltb (n + b.length) (b.bytes 0 + 1 + 0))) [
  | inl part ↦ rw part (
    pos 0,
    c,
    record b { length = n + b.length },
    h,
    t,
    refl,
    record { short = ground (arith, v.small 0); small = v.small },
  )
  | inr whole ↦ rw whole (
      packet_loop_ends os (n + b.length + 1) (n + b.length) 0 (record b { length = 0 }) c h t
        (omega arith) (record { short = omega arith; small = v.small }))
]

pub store-small :
    (m src : Memory) (i n : ℕ)
    → ((j : ℕ) → m j < 256)
    → ((j : ℕ) → src j < 256)
    → (j : ℕ) → store m i n src j < 256
store-small m src i n p q j = ground (arith, p j, q (j - i))

-- On a valid row, with a device that hands over bytes and a read that does not fail with EAGAIN more
-- than `k` times, `readChannelMsg` ends and leaves a valid row; so the next read has room for five
-- bytes at least, and for the rest of the packet that is not whole.
pub read_channel_msg_ends :
    (os : Os) (k fuel : ℕ) (b : RxBuffer) (c : Channel) (h : Hal) (t : Trace)
    → IsValid b
    → ((u : Trace) (j : ℕ) → os.received u j < 256)
    → let fd = c.fd in
      let room = ant_hci_max_msg_size - b.length in
      let u = reads fd room k t in
      is_neg (os.ret u (read_file fd room)) && is_eagain (os.errno (read_file fd room ∷ u)) ≡ false
      → k < fuel
      → EndsValid (read_channel_msg os fuel b c h t)
unfolding read_channel_msg accept_read
read_channel_msg_ends os k fuel b c h t v small settles lt =
    let room = ant_hci_max_msg_size - b.length in
    let (r, u, out, _) = read_retry_ends os k fuel c.fd room h t settles lt in
    rw (out, accept_read) (accepted r u)
  where
    accepted : (r : ℤ) (u : Trace) → EndsValid (accept_read os (some r) b c h u)
    accepted (negsuc n) u = (minus_one, c, b, h, u, refl, v)
    accepted (pos n) u =
        accept_ends os n (record b { bytes = store b.bytes b.length n (os.received u) }) c h u
          (record {
            short = v.short;
            small = store-small b.bytes (os.received u) b.length n v.small (small u);
          })
