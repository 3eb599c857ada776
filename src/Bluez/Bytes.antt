-- ===== src/Bluez/Bytes.antt =====
-- src/common/ant_utils.c: numbers of several bytes in a buffer. A buffer is the list of its bytes.
use linux_ant_hal.Base.{ℕ, ◌+◌, ◌*◌, ◌/◌, ◌%◌, ◌<◌, ◌≡◌, List, [], ◌∷◌, arith, get_or}

pub be_to_host16 : List ℕ → ℕ
be_to_host16 num = (get_or num 0 0 * 256 + get_or num 1 0) % 65536

unfoldable pub le_to_host16 : List ℕ → ℕ
le_to_host16 num = (get_or num 1 0 * 256 + get_or num 0 0) % 65536

pub store_be16 : ℕ → List ℕ
store_be16 v = v / 256 % 256 ∷ v % 256 ∷ []

pub store_le16 : ℕ → List ℕ
store_le16 v = v % 256 ∷ v / 256 % 256 ∷ []

pub store_be32 : ℕ → List ℕ
store_be32 v = v / 16777216 % 256 ∷ v / 65536 % 256 ∷ v / 256 % 256 ∷ v % 256 ∷ []

-- What is stored in 16 bits, in either order, is read back by the function for that order; what is
-- stored in 32 bits is the number whose digits to the base 256 are the bytes, the first one highest.
pub store_roundtrip :
    (v w : ℕ)
    → v < 65536
    → w < 4294967296
    → (be_to_host16 (store_be16 v) ≡ v)
      × (le_to_host16 (store_le16 v) ≡ v)
      × (let num = store_be32 w in
          ((get_or num 0 0 * 256 + get_or num 1 0) * 256 + get_or num 2 0) * 256 + get_or num 3 0
          ≡ w)
unfolding be_to_host16 le_to_host16 store_be16 store_le16 store_be32
store_roundtrip v w small fits = (omega arith, omega arith, omega arith)
