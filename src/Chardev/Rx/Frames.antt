-- ===== src/Chardev/Rx/Frames.antt =====
-- The packets in a stream of bytes, described without the buffer: a size byte and so many bytes of
-- message, again and again, and at the end the start of a packet that is not whole.
use linux_ant_hal.Base.{
  ℕ, zero, suc, ◌<◌, ◌≤◌, ◌≡◌, refl, sym, ap, ◌∙◌, List, [], ◌∷◌, ◌++◌, arith, length,
  length-append, take, drop, take-append-drop, length-take_of_le, length-drop-le, All,
}
use mathlib.Core.List.{append_assoc}
use mathlib.Core.Path.{subst}
use native.Mathlib.Decide.{dec_lt}

-- `Frames bytes messages left`
pub data Frames : List ℕ → List (List ℕ) → List ℕ → Type 0 where
  done : Frames [] [] []
  partial : (n : ℕ) (rest : List ℕ) → length rest < n → Frames (n ∷ rest) [] (n ∷ rest)
  whole :
      (msg rest : List ℕ) {bytes : List ℕ} {msgs : List (List ℕ)} {left : List ℕ}
      → bytes ≡ length msg ∷ (msg ++ rest)
      → Frames rest msgs left
      → Frames bytes (msg ∷ msgs) left

Frames-below :
    (k : ℕ) (bytes : List ℕ)
    → length bytes < k
    → (msgs : List (List ℕ)) × (left : List ℕ) × Frames bytes msgs left
Frames-below zero bytes h = absurd (omega arith)
Frames-below (suc k) [] h = ([], [], done)
Frames-below (suc k) (n ∷ rest) h = elim (dec_lt (length rest) n) [
  | yes short ↦ ([], n ∷ rest, partial n rest short)
  | no long ↦
      let e : length (take n rest) ≡ n = length-take_of_le n rest (omega arith) in
      let (msgs, left, f) = Frames-below k (drop n rest) (omega (arith, length-drop-le n rest)) in
      (
        take n rest ∷ msgs,
        left,
        whole (take n rest) (drop n rest) (rw (e, take-append-drop n rest)) f,
      )
]

-- Every stream of bytes has packets.
pub Frames-exist :
    (bytes : List ℕ) → (msgs : List (List ℕ)) × (left : List ℕ) × Frames bytes msgs left
Frames-exist bytes = Frames-below (suc (length bytes)) bytes (omega arith)

-- Packets do not depend on how the stream is cut: what a first part leaves over, with a second
-- part, gives the rest of the packets of the whole.
pub Frames-append :
    {xs left : List ℕ} {msgs : List (List ℕ)} (ys : List ℕ) {msgs' : List (List ℕ)} {left' : List ℕ}
    → Frames xs msgs left
    → Frames (left ++ ys) msgs' left'
    → Frames (xs ++ ys) (msgs ++ msgs') left'
Frames-append ys done g = g
Frames-append ys (partial n rest h) g = g
Frames-append ys (whole msg rest e f) g =
    whole msg (rest ++ ys) (rw (e, append_assoc msg rest ys)) (Frames-append ys f g)

append_split :
    (xs xs' : List ℕ) {ys ys' : List ℕ}
    → length xs ≡ length xs'
    → xs ++ ys ≡ xs' ++ ys'
    → (xs ≡ xs') × (ys ≡ ys')
append_split [] [] n e = (refl, e)
append_split [] (x ∷ xs') n e = absurd (omega arith)
append_split (x ∷ xs) [] n e = absurd (omega arith)
append_split (x ∷ xs) (x' ∷ xs') {ys} {ys'} n e =
    let tails : xs ++ ys ≡ xs' ++ ys' = cc in
    let (p, q) = append_split xs xs' (omega arith) tails in (cc, q)

short_ne_whole :
    (n : ℕ) (rest msg rest' : List ℕ) → length rest < n → n ∷ rest ≡ length msg ∷ (msg ++ rest') → ⊥
short_ne_whole n rest msg rest' h e =
    let size : n ≡ length msg = cc in
    let body : rest ≡ msg ++ rest' = cc in omega (arith, ap length body, length-append msg rest')

Frames-unique' :
    {xs left ys left' : List ℕ} {msgs msgs' : List (List ℕ)}
    → Frames xs msgs left
    → xs ≡ ys
    → Frames ys msgs' left'
    → (msgs ≡ msgs') × (left ≡ left')
Frames-unique' done e done = (refl, refl)
Frames-unique' done e (partial n rest h) = cc
Frames-unique' done e (whole msg rest e' g) = cc
Frames-unique' (partial n rest h) e done = cc
Frames-unique' (partial n rest h) e (partial n' rest' h') = (refl, e)
Frames-unique' (partial n rest h) e (whole msg rest' e' g) =
    absurd (short_ne_whole n rest msg rest' h (e ∙ e'))
Frames-unique' (whole msg rest e' f) e done = cc
Frames-unique' (whole msg rest e' f) e (partial n rest' h) =
    absurd (short_ne_whole n rest' msg rest h (sym e ∙ e'))
Frames-unique' (whole msg rest e1 f) e (whole msg' rest' e2 g) =
    let sizes : length msg ≡ length msg' = cc in
    let bodies : msg ++ rest ≡ msg' ++ rest' = cc in
    let (p, q) = append_split msg msg' sizes bodies in
    let (ps, qs) = Frames-unique' f q g in (cc, qs)

-- A stream of bytes has its packets and what is left over in one way only.
pub Frames-unique :
    {bytes left left' : List ℕ} {msgs msgs' : List (List ℕ)}
    → Frames bytes msgs left
    → Frames bytes msgs' left'
    → (msgs ≡ msgs') × (left ≡ left')
Frames-unique f g = Frames-unique' f refl g

All-drop : (P : ℕ → Type 0) (xs ys : List ℕ) → All P (xs ++ ys) → All P ys
All-drop P [] ys h = h
All-drop P (x ∷ xs) ys h = All-drop P xs ys h.1

-- Where every byte is below 256, what is left over has at most 255 bytes, so that the packet it
-- begins fits the buffer.
pub length-left-le :
    {bytes left : List ℕ} {msgs : List (List ℕ)}
    → All (λ b. b < 256) bytes
    → Frames bytes msgs left
    → length left ≤ 255
length-left-le small done = omega arith
length-left-le small (partial n rest h) = omega arith
length-left-le small (whole msg rest e f) =
    let small' : All (λ b. b < 256) (length msg ∷ (msg ++ rest)) =
      subst (All (λ b. b < 256)) e small in
    length-left-le (All-drop (λ b. b < 256) msg rest small'.1) f
