-- ===== src/Storage/Errors.antt =====
-- The errors of the store and the monad of fallible steps. An error's text is kept as bytes.
use flywheel.Prelude.{ℕ, ◌≡◌, refl, ◌⊎◌, inl, inr}
use flywheel.Bytes.{Bytes}

pub data RecordError : Type 0 where
  empty : RecordError
  unsupported_version : ℕ → RecordError
  encode decode : RecordError

-- `Store` carries the message of the database.
pub data MetadataError : Type 0 where
  store : Bytes → MetadataError
  incompatible_store : Bytes → MetadataError
  already_exists : MetadataError
  record_failed : RecordError → MetadataError

-- `std::result::Result`, its `?` and `map_err`.
pub data Result {ℓ} (E : Type 0) (A : Type ℓ) : Type ℓ where
  ok : A → Result E A
  err : E → Result E A

-- A failed step leaves out what follows it.
infixl 5 ◌>>=◌
abbrev pub ◌>>=◌ {ℓ κ} :
    {E : Type 0} {A : Type ℓ} {B : Type κ} → Result E A → (A → Result E B) → Result E B
err failure >>= next = err failure
ok value >>= next = next value

abbrev pub map_err {ℓ} : {E F : Type 0} {A : Type ℓ} → (E → F) → Result E A → Result F A
map_err convert (err failure) = err (convert failure)
map_err convert (ok value) = ok value

-- A successful bind is two successful steps.
pub >>=-eq-ok {ℓ κ} :
    {E : Type 0} {A : Type ℓ} {B : Type κ} (m : Result E A) (f : A → Result E B) {b : B}
    → (m >>= f) ≡ ok b
    → (a : A) × (m ≡ ok a) × (f a ≡ ok b)
>>=-eq-ok (err failure) next h = cc
>>=-eq-ok (ok value) next h = (value, refl, h)

-- To split on a computed result and keep the equation.
pub Result-cases {ℓ} :
    {E : Type 0} {A : Type ℓ} (r : Result E A) → ((a : A) × (r ≡ ok a)) ⊎ ((e : E) × (r ≡ err e))
Result-cases (err failure) = inr (failure, refl)
Result-cases (ok value) = inl (value, refl)
