-- ===== src/RecentUse/Bits.antt =====
-- src/cache/recent_use.rs: single bits of a filter, and filters of the right shape.
use flywheel.Prelude.{
  ℕ, zero, suc, ◌*◌, ◌/◌, ◌%◌, ◌<◌, ◌≡◌, refl, true, false, List, [], ◌∷◌, map, arith, length,
  get_or, set, All, All-set, All-get_or, length-set, get_or-set_self, get_or-replicate,
}
use flywheel.RecentUse.{Word, Filter, zero_word, set_bit, get_bit, set_bits, contains}

abbrev pub IsWord : Word → Type 0
IsWord w = length w ≡ 64

-- A filter of `words` words of 64 bits.
abbrev pub IsFilter : ℕ → Filter → Type 0
IsFilter words f = (length f ≡ words) × All IsWord f

-- The positions that index a filter of `words` words.
abbrev pub Fits : ℕ → List ℕ → Type 0
Fits words ps = All (λ p. p < words * 64) ps

set-true_keeps :
    (w : Word) (j k : ℕ) → get_or w k false ≡ true → get_or (set w j true) k false ≡ true
set-true_keeps [] j k h = h
set-true_keeps (b ∷ w) zero zero h = refl
set-true_keeps (b ∷ w) zero (suc k) h = h
set-true_keeps (b ∷ w) (suc j) zero h = h
set-true_keeps (b ∷ w) (suc j) (suc k) h = set-true_keeps w j k h

set-word_keeps :
    (f : Filter) (i j i' k : ℕ)
    → get_or (get_or f i' []) k false ≡ true
    → get_or (get_or (set f i (set (get_or f i []) j true)) i' []) k false ≡ true
set-word_keeps [] i j i' k h = h
set-word_keeps (w ∷ f) zero j zero k h = set-true_keeps w j k h
set-word_keeps (w ∷ f) zero j (suc i') k h = h
set-word_keeps (w ∷ f) (suc i) j zero k h = h
set-word_keeps (w ∷ f) (suc i) j (suc i') k h = set-word_keeps f i j i' k h

-- A write clears no bit.
pub get_bit-set_bit_keeps :
    (f : Filter) (p q : ℕ) → get_bit f q ≡ true → get_bit (set_bit f p) q ≡ true
unfolding get_bit set_bit
get_bit-set_bit_keeps f p q h = set-word_keeps f (p / 64) (p % 64) (q / 64) (q % 64) h

pub get_bit-set_bit_self :
    (words : ℕ) (f : Filter) (p : ℕ)
    → IsFilter words f
    → p < words * 64
    → get_bit (set_bit f p) p ≡ true
unfolding get_bit set_bit
get_bit-set_bit_self words f p v h =
    let inside : p / 64 < length f = omega (arith, v.0) in
    let short : length (get_or f (p / 64) []) ≡ 64 = All-get_or IsWord f (p / 64) [] v.1 inside in
    rw (get_or-set_self f (p / 64) (set (get_or f (p / 64) []) (p % 64) true) [] inside)
      (get_or-set_self (get_or f (p / 64) []) (p % 64) true false (omega arith))

pub set_bit-IsFilter :
    (words : ℕ) (f : Filter) (p : ℕ)
    → IsFilter words f
    → p < words * 64
    → IsFilter words (set_bit f p)
unfolding set_bit
set_bit-IsFilter words f p v h =
    let inside : p / 64 < length f = omega (arith, v.0) in
    let short : length (get_or f (p / 64) []) ≡ 64 = All-get_or IsWord f (p / 64) [] v.1 inside in
    (
      omega (arith, v.0, length-set f (p / 64) (set (get_or f (p / 64) []) (p % 64) true)),
      All-set IsWord f (p / 64) (set (get_or f (p / 64) []) (p % 64) true) v.1
          (omega (arith, length-set (get_or f (p / 64) []) (p % 64) true)),
    )

pub set_bits_keeps :
    (f : Filter) (ps : List ℕ) (q : ℕ) → get_bit f q ≡ true → get_bit (set_bits f ps) q ≡ true
unfolding set_bits
set_bits_keeps f [] q h = h
set_bits_keeps f (p ∷ ps) q h = set_bits_keeps (set_bit f p) ps q (get_bit-set_bit_keeps f p q h)

pub set_bits-IsFilter :
    (words : ℕ) (f : Filter) (ps : List ℕ)
    → IsFilter words f
    → Fits words ps
    → IsFilter words (set_bits f ps)
unfolding set_bits
set_bits-IsFilter words f [] v h = v
set_bits-IsFilter words f (p ∷ ps) v h =
    set_bits-IsFilter words (set_bit f p) ps (set_bit-IsFilter words f p v h.0) h.1

pub contains-set_bits_keeps :
    (f : Filter) (ps qs : List ℕ) → contains f qs ≡ true → contains (set_bits f ps) qs ≡ true
unfolding contains
contains-set_bits_keeps f ps [] h = refl
contains-set_bits_keeps f ps (q ∷ qs) h =
    ground (arith, set_bits_keeps f ps q, contains-set_bits_keeps f ps qs)

pub contains-set_bits_self :
    (words : ℕ) (f : Filter) (ps : List ℕ)
    → IsFilter words f
    → Fits words ps
    → contains (set_bits f ps) ps ≡ true
unfolding contains set_bits
contains-set_bits_self words f [] v h = refl
contains-set_bits_self words f (p ∷ ps) v h =
    rw (set_bits_keeps (set_bit f p) ps p (get_bit-set_bit_self words f p v h.0))
      (contains-set_bits_self words (set_bit f p) ps (set_bit-IsFilter words f p v h.0) h.1)

-- A cleared filter holds no bit.
pub get_bit-cleared : (f : Filter) (p : ℕ) → get_bit (map (λ _. zero_word) f) p ≡ false
unfolding get_bit
get_bit-cleared f p = cleared f (p / 64)
  where
    cleared :
        (g : Filter) (i : ℕ) → get_or (get_or (map (λ _. zero_word) g) i []) (p % 64) false ≡ false
    cleared [] i = refl
    cleared (w ∷ g) zero = get_or-replicate 64 (p % 64) false
    cleared (w ∷ g) (suc i) = cleared g i

pub cleared-IsFilter :
    (words : ℕ) (f : Filter) → length f ≡ words → IsFilter words (map (λ _. zero_word) f)
cleared-IsFilter words f e = (omega (arith, same f), clear f)
  where
    same : (g : Filter) → length (map (λ (_ : Word). zero_word) g) ≡ length g
    same [] = refl
    same (w ∷ g) = omega (arith, same g)

    clear : (g : Filter) → All IsWord (map (λ _. zero_word) g)
    clear [] = tt
    clear (w ∷ g) = (refl, clear g)
