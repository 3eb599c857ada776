-- ===== src/Chardev/Tx/Frame.antt =====
-- The packet that `ant_tx_message` hands to the device.
use linux_ant_hal.Base.{
  ℕ, zero, suc, ◌+◌, ◌%◌, ◌<◌, ◌≤◌, ◌≡◌, refl, sym, ap, ◌∙◌, List, [], ◌∷◌, arith, length, take,
  get_or, length-take_of_le,
}
use mathlib.Core.List.{append-nil}
use linux_ant_hal.Chardev.Rx.Frames.{Frames, done, whole}
use linux_ant_hal.Chardev.Tx.{tx_message_length, tx_buffer}

pub take_all : (xs : List ℕ) (n : ℕ) → length xs ≤ n → take n xs ≡ xs
take_all [] zero h = refl
take_all [] (suc n) h = refl
take_all (x ∷ xs) zero h = absurd (omega arith)
take_all (x ∷ xs) (suc n) h = ap (◌∷◌ x) (take_all xs n (omega arith))

-- Within a message the value for what is behind its end does not matter,
pub get_or_default :
    (mesg : List ℕ) (i d e : ℕ) → i < length mesg → get_or mesg i d ≡ get_or mesg i e
get_or_default [] i d e h = absurd (omega arith)
get_or_default (x ∷ mesg) zero d e h = refl
get_or_default (x ∷ mesg) (suc i) d e h = get_or_default mesg i d e (omega arith)

-- nor does what is behind the first bytes of it.
pub get_or-take :
    (mesg : List ℕ) (i len d e : ℕ)
    → i < len
    → len ≤ length mesg
    → get_or (take len mesg) i d ≡ get_or mesg i e
get_or-take mesg i zero d e h fits = absurd (omega arith)
get_or-take [] i (suc len) d e h fits = absurd (omega arith)
get_or-take (x ∷ mesg) zero (suc len) d e h fits = refl
get_or-take (x ∷ mesg) (suc i) (suc len) d e h fits =
    get_or-take mesg i len d e (omega arith) (omega arith)

-- Up to 254 bytes the whole of the size byte and the message are written.
pub tx_packet :
    (len : ℕ) (mesg : List ℕ)
    → len < 255
    → len ≤ length mesg
    → take (tx_message_length len) (tx_buffer len mesg) ≡ len ∷ take len mesg
unfolding tx_message_length tx_buffer
tx_packet len mesg h k =
    take_all (len ∷ take len mesg) ((len + 1) % 256) (omega (arith, length-take_of_le len mesg k))

-- What is written for a message of up to 254 bytes is, by the rules by which the receive side cuts a
-- stream, one whole packet that holds the message, and nothing besides.
pub tx_packet-Frames :
    (len : ℕ) (mesg : List ℕ)
    → len < 255
    → len ≤ length mesg
    → Frames (take (tx_message_length len) (tx_buffer len mesg)) (take len mesg ∷ []) []
tx_packet-Frames len mesg h k =
    whole (take len mesg) []
      (tx_packet len mesg h k
        ∙ ap (λ n. n ∷ take len mesg) (sym (length-take_of_le len mesg k))
        ∙ ap (λ xs. length (take len mesg) ∷ xs) (sym (append-nil (take len mesg))))
      done

-- For a message of 255 bytes the length wraps, and nothing is written.
pub tx_packet_wraps : (mesg : List ℕ) → take (tx_message_length 255) (tx_buffer 255 mesg) ≡ []
unfolding tx_message_length tx_buffer
tx_packet_wraps mesg = refl

-- Whatever the length that fits in a byte, the bytes handed to the device are all in the part of
-- `txBuffer` that was filled, and what was filled fits in its 260 bytes.
pub tx_bounds :
    (len : ℕ) (mesg : List ℕ)
    → len < 256
    → len ≤ length mesg
    → (tx_message_length len ≤ length (tx_buffer len mesg)) × (length (tx_buffer len mesg) ≤ 260)
unfolding tx_message_length tx_buffer
tx_bounds len mesg byte fits =
    (omega (arith, length-take_of_le len mesg fits), omega (arith, length-take_of_le len mesg fits))
