-- ===== src/Chardev/Rx/Row.antt =====
-- `readChannelMsg` and the bounds of `aucRxBuffer`: which bytes the handling of a read looks at.
use linux_ant_hal.Base.{
  ℕ, zero, suc, ◌+◌, ◌<◌, ◌≤◌, ◌≡◌, refl, ◌∷◌, inl, inr, Option, none, some, arith, ℤ, pos, negsuc,
  minus_one, is_neg, ltb, if◌then◌else◌, Bool-cases,
}
use mathlib.Core.Path.{ap₂}
use native.Mathlib.Decide.{dec_lt}
use linux_ant_hal.Os.{Os, Trace}
use linux_ant_hal.Chardev.State.{Channel, Hal, ant_hci_max_msg_size}
use linux_ant_hal.Chardev.Rx.{
  Memory, RxBuffer, slice, handle_packet, is_keepalive_response, packet_loop, accept,
}
use linux_ant_hal.Chardev.Rx.Parse.{kept, loop_end, loop_step}

-- Equal on the 260 bytes of the row, whatever lies behind them.
abbrev pub AgreesInRow : Memory → Memory → Type 0
AgreesInRow m m' = (j : ℕ) → j < ant_hci_max_msg_size → m j ≡ m' j

-- The same outcome, but for what lies behind the row.
abbrev pub SameOutcome :
    Option (ℤ × Channel × RxBuffer) × Hal × Trace
    → Option (ℤ × Channel × RxBuffer) × Hal × Trace
    → Type 0
SameOutcome (some (r, c, b), h, t) (some (r', c', b'), h', t') =
    (r ≡ r')
    × (c ≡ c')
    × (b.length ≡ b'.length)
    × AgreesInRow b.bytes b'.bytes
    × (h ≡ h')
    × (t ≡ t')
SameOutcome (none, h, t) (none, h', t') = (h ≡ h') × (t ≡ t')
SameOutcome _ _ = ⊥

slice_in_row :
    (m m' : Memory) (i n : ℕ)
    → AgreesInRow m m'
    → i + n ≤ ant_hci_max_msg_size
    → slice m i n ≡ slice m' i n
slice_in_row m m' i zero a l = refl
slice_in_row m m' i (suc n) a l =
    ap₂ ◌∷◌ (a i (omega arith)) (slice_in_row m m' (i + 1) n a (omega arith))

module _ (os : Os) where
  handle_packet_in_row :
      (m m' : Memory) (i size : ℕ) (c : Channel)
      → AgreesInRow m m'
      → i + 6 ≤ ant_hci_max_msg_size
      → i + 1 + size ≤ ant_hci_max_msg_size
      → handle_packet os m i size c ≡ handle_packet os m' i size c
  unfolding handle_packet is_keepalive_response
  handle_packet_in_row m m' i size c a l k = rw (
    slice_in_row m m' (i + 1) size a (omega arith),
    a (i + 1) (omega arith),
    a (i + 1 + 1) (omega arith),
    a (i + 1 + 2) (omega arith),
    a (i + 1 + 1 + 1) (omega arith),
    a (i + 1 + 1 + 1 + 1) (omega arith),
    a (i + 1 + 1 + 1 + 1 + 1) (omega arith),
  )

  kept_in_row :
      (total i : ℕ) (b b' : RxBuffer)
      → total ≤ ant_hci_max_msg_size
      → AgreesInRow b.bytes b'.bytes
      → AgreesInRow (kept total i b).bytes (kept total i b').bytes
  kept_in_row total i b b' s a j l = ground (arith, a (i + j), a j)

  -- the rest of the loop after a packet
  handled :
      (fuel total next : ℕ) (b b' : RxBuffer)
      → b.length ≡ b'.length
      → AgreesInRow b.bytes b'.bytes
      → ((c : Channel) (h : Hal) (t : Trace)
          → SameOutcome
              (packet_loop os fuel total next b c h t)
              (packet_loop os fuel total next b' c h t))
      → (out : (ℤ × Channel) × Hal × Trace)
      → let ((r, c), h, t) = out in
        SameOutcome
          (if is_neg r
            then (some (minus_one, c, b), h, t)
            else packet_loop os fuel total next b c h t)
          (if is_neg r
            then (some (minus_one, c, b'), h, t)
            else packet_loop os fuel total next b' c h t)
  handled fuel total next b b' e a k ((negsuc n, c), h, t) = (refl, refl, e, a, refl, refl)
  handled fuel total next b b' e a k ((pos n, c), h, t) = k c h t

  packet_loop_in_row :
      (fuel total i : ℕ) (b b' : RxBuffer) (c : Channel) (h : Hal) (t : Trace)
      → total ≤ 255
      → b.length ≡ b'.length
      → AgreesInRow b.bytes b'.bytes
      → SameOutcome (packet_loop os fuel total i b c h t) (packet_loop os fuel total i b' c h t)
  packet_loop_in_row zero total i b b' c h t s e a = unfold packet_loop in (refl, refl)
  packet_loop_in_row (suc fuel) total i b b' c h t s e a = elim (dec_lt i total) [
    | no over ↦
        rw
          (
            loop_end os total i b c h t fuel (omega arith),
            loop_end os total i b' c h t fuel (omega arith),
          )
          (refl, refl, e, a, refl, refl)
    | yes more ↦
        rw
          (
            loop_step os total i b c h t fuel more,
            loop_step os total i b' c h t fuel more,
            a (i + 0) (omega arith),
          )
          (elim (Bool-cases (ltb total (b'.bytes (i + 0) + 1 + 0 + i))) [
            | inl part ↦ rw part (
                packet_loop_in_row fuel total (i + 1 + 0 + b'.bytes (i + 0)) (kept total i b)
                  (kept total i b') c h t s refl (kept_in_row total i b b' (omega arith) a))
            | inr whole ↦
                rw
                  (
                    whole,
                    handle_packet_in_row b.bytes b'.bytes i (b'.bytes (i + 0)) c a (omega arith)
                        (ground arith),
                  )
                  (handled fuel total (i + 1 + 0 + b'.bytes (i + 0)) b b' e a
                    (λ c1 h1 t1.
                      packet_loop_in_row fuel total (i + 1 + 0 + b'.bytes (i + 0)) b b' c1 h1 t1 s e
                        a)
                    (handle_packet os b'.bytes i (b'.bytes (i + 0)) c h t))
          ])
  ]

  -- Where a read and the bytes kept from the reads before make 255 bytes at most, `readChannelMsg`
  -- does not look at a byte behind the row of its channel: two buffers that agree on the row give
  -- the same result, callbacks, state and row.
  pub accept_in_row :
      (n : ℕ) (b b' : RxBuffer) (c : Channel) (h : Hal) (t : Trace)
      → n + b.length ≤ 255
      → b.length ≡ b'.length
      → AgreesInRow b.bytes b'.bytes
      → SameOutcome (accept os n b c h t) (accept os n b' c h t)
  unfolding accept
  accept_in_row n b b' c h t s e a =
      rw (e, a 0 (omega arith))
        (elim (Bool-cases (ltb (n + b'.length) (b'.bytes 0 + 1 + 0))) [
          | inl part ↦ rw part (refl, refl, refl, a, refl, refl)
          | inr whole ↦ rw whole (
              packet_loop_in_row (n + b'.length + 1) (n + b'.length) 0 (record b { length = 0 })
                (record b' { length = 0 }) c h t (omega arith) refl a)
        ])
