-- ===== src/Bytes/Words.antt =====
-- Big-endian words, their decoding and their order.
use native.Mathlib.Decide.{dec_lt}
use native.Mathlib.Nat.{pow-suc}
use flywheel.Prelude.{
  ℕ, zero, suc, ◌+◌, ◌*◌, ◌/◌, ◌%◌, ◌^◌, ◌<◌, ◌≡◌, refl, true, [], ◌∷◌, ◌++◌, arith, length,
  length-append,
}
use flywheel.Bytes.{Bytes, bytes_lt, to_be_bytes, from_be_bytes_from, from_be_bytes}
use flywheel.Bytes.Order.{bytes_lt-append, bytes_lt-append_left}

pub length-to_be_bytes : (w n : ℕ) → length (to_be_bytes w n) ≡ w
unfolding to_be_bytes
length-to_be_bytes zero n = refl
length-to_be_bytes (suc w) n =
    omega (
      arith,
      length-append (to_be_bytes w (n / 256)) (n % 256 ∷ []),
      length-to_be_bytes w (n / 256),
    )

from_be_bytes_from-append :
    (acc : ℕ) (bs : Bytes) (b : ℕ)
    → from_be_bytes_from acc (bs ++ b ∷ []) ≡ from_be_bytes_from acc bs * 256 + b
unfolding from_be_bytes_from
from_be_bytes_from-append acc [] b = refl
from_be_bytes_from-append acc (c ∷ bs) b = from_be_bytes_from-append (acc * 256 + c) bs b

pub from_be_bytes-to_be_bytes : (w n : ℕ) → n < 256 ^ w → from_be_bytes (to_be_bytes w n) ≡ n
unfolding from_be_bytes to_be_bytes
from_be_bytes-to_be_bytes zero n h = omega arith
from_be_bytes-to_be_bytes (suc w) n h = omega (
  arith,
  from_be_bytes_from-append 0 (to_be_bytes w (n / 256)) (n % 256),
  from_be_bytes-to_be_bytes w (n / 256) (omega (arith, pow-suc 256 w)),
)

last_lt : (a b : ℕ) → a < b → bytes_lt (a ∷ []) (b ∷ []) ≡ true
unfolding bytes_lt
last_lt a b h = ground arith

-- A smaller word has the smaller encoding.
pub bytes_lt-to_be_bytes :
    (w n m : ℕ) → m < 256 ^ w → n < m → bytes_lt (to_be_bytes w n) (to_be_bytes w m) ≡ true
unfolding to_be_bytes
bytes_lt-to_be_bytes zero n m h lt = absurd (omega arith)
bytes_lt-to_be_bytes (suc w) n m h lt = elim (dec_lt (n / 256) (m / 256)) [
  | yes below ↦
      bytes_lt-append (to_be_bytes w (n / 256)) (to_be_bytes w (m / 256)) (n % 256 ∷ [])
        (m % 256 ∷ [])
        (omega (arith, length-to_be_bytes w (n / 256), length-to_be_bytes w (m / 256)))
        (bytes_lt-to_be_bytes w (n / 256) (m / 256) (omega (arith, pow-suc 256 w)) below)
  | no above ↦
      let same : n / 256 ≡ m / 256 = omega arith in
      rw (same, bytes_lt-append_left (to_be_bytes w (m / 256)))
        (last_lt (n % 256) (m % 256) (omega arith))
]
