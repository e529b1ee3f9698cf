-- ===== src/Bytes/Order.antt =====
-- Equality and the lexicographic order of byte strings.
use flywheel.Prelude.{◌≡◌, ◌↔◌, refl, subst, true, false, List, [], ◌∷◌, ◌++◌, arith, length}
use flywheel.Bytes.{Bytes, bytes_eq, bytes_lt}

pub bytes_eq_refl : (a : Bytes) → bytes_eq a a ≡ true
unfolding bytes_eq
bytes_eq_refl [] = refl
bytes_eq_refl (x ∷ xs) = ground (arith, bytes_eq_refl xs)

pub bytes_eq→eq : (a b : Bytes) → bytes_eq a b ≡ true → a ≡ b
unfolding bytes_eq
bytes_eq→eq [] [] h = refl
bytes_eq→eq [] (y ∷ ys) h = cc
bytes_eq→eq (x ∷ xs) [] h = cc
bytes_eq→eq (x ∷ xs) (y ∷ ys) h = ground (arith, bytes_eq→eq xs ys)

pub bytes_eq_iff : (a b : Bytes) → (bytes_eq a b ≡ true) ↔ (a ≡ b)
bytes_eq_iff a b = (bytes_eq→eq a b, λ e. subst (λ c. bytes_eq a c ≡ true) e (bytes_eq_refl a))

pub bytes_lt_irrefl : (a : Bytes) → bytes_lt a a ≡ false
unfolding bytes_lt
bytes_lt_irrefl [] = refl
bytes_lt_irrefl (x ∷ xs) = ground (arith, bytes_lt_irrefl xs)

pub bytes_lt_trans :
    (a b c : Bytes) → bytes_lt a b ≡ true → bytes_lt b c ≡ true → bytes_lt a c ≡ true
unfolding bytes_lt
bytes_lt_trans a b [] h k = cc
bytes_lt_trans a [] (z ∷ zs) h k = cc
bytes_lt_trans [] (y ∷ ys) (z ∷ zs) h k = refl
bytes_lt_trans (x ∷ xs) (y ∷ ys) (z ∷ zs) h k = ground (arith, bytes_lt_trans xs ys zs)

-- Two strings that are not below one another are equal.
pub bytes_lt_total : (a b : Bytes) → bytes_lt a b ≡ false → bytes_lt b a ≡ false → a ≡ b
unfolding bytes_lt
bytes_lt_total [] [] h k = refl
bytes_lt_total [] (y ∷ ys) h k = cc
bytes_lt_total (x ∷ xs) [] h k = cc
bytes_lt_total (x ∷ xs) (y ∷ ys) h k = ground (arith, bytes_lt_total xs ys)

-- A common prefix does not matter.
pub bytes_lt-append_left : (p a b : Bytes) → bytes_lt (p ++ a) (p ++ b) ≡ bytes_lt a b
unfolding bytes_lt
bytes_lt-append_left [] a b = refl
bytes_lt-append_left (x ∷ p) a b = ground (arith, bytes_lt-append_left p a b)

-- A difference inside decides for all continuations, between strings of one length.
pub bytes_lt-append :
    (a b x y : Bytes)
    → length a ≡ length b
    → bytes_lt a b ≡ true
    → bytes_lt (a ++ x) (b ++ y) ≡ true
unfolding bytes_lt
bytes_lt-append [] [] x y e h = cc
bytes_lt-append [] (_ ∷ b) x y e h = absurd (omega arith)
bytes_lt-append (_ ∷ a) [] x y e h = absurd (omega arith)
bytes_lt-append (c ∷ a) (d ∷ b) x y e h = ground (arith, bytes_lt-append a b x y)

-- Strings of one length at the front of equal strings are equal, and so are the rests.
pub append_inj {ℓ} :
    {A : Type ℓ} (a b x y : List A) → length a ≡ length b → a ++ x ≡ b ++ y → (a ≡ b) × (x ≡ y)
append_inj [] [] x y e h = (refl, h)
append_inj [] (_ ∷ b) x y e h = absurd (omega arith)
append_inj (_ ∷ a) [] x y e h = absurd (omega arith)
append_inj (c ∷ a) (d ∷ b) x y e h = ground (arith, append_inj a b x y)

pub bytes_lt_asym : (a b : Bytes) → bytes_lt a b ≡ true → bytes_lt b a ≡ false
bytes_lt_asym a b h = ground (arith, bytes_lt_trans a b a, bytes_lt_irrefl a)

pub bytes_lt_neg_trans :
    (a b c : Bytes) → bytes_lt b a ≡ false → bytes_lt c b ≡ false → bytes_lt c a ≡ false
bytes_lt_neg_trans a b c h k = ground (arith, bytes_lt_trans c a b, bytes_lt_total a b)
