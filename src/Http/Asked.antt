-- ===== src/Http/Asked.antt =====
-- src/transport/http/mod.rs: the ranges that a client can write, and the bytes it is served.
use flywheel.Prelude.{
  ℕ, ◌+◌, ◌≤◌, ◌<◌, ◌≡◌, refl, ◌∙◌, false, [], ◌∷◌, ◌++◌, Option, some, All, arith, Bool-cases, inl,
  inr, ltb, leb, u64_max, length, ◌==◌, ◌||◌, ◌↔◌,
}
use flywheel.Bytes.{Bytes}
use flywheel.Text.{contains, parse_u64, decimal}
use flywheel.Text.Cuts.{strip_prefix-append, split_once-append, contains-append}
use flywheel.Text.Numbers.{parse_u64-decimal, decimal-All, length-decimal, IsDigit}
use flywheel.Http.Range.{
  RangeSelection, full, unsatisfiable, partial, bytes_unit, comma, dash, suffix_range, open_range,
  closed_range, bounded_range, select_range, parse_spec, parse_range,
}

-- What a client asks for.
pub data ByteRange : Type 0 where
  closed : ℕ → ℕ → ByteRange
  from suffix : ℕ → ByteRange

-- How it is written after the unit.
abbrev pub written : ByteRange → Bytes
written (closed start end) = decimal start ++ dash ∷ decimal end
written (from start) = decimal start ++ dash ∷ []
written (suffix n) = dash ∷ decimal n

abbrev pub IsRange : ByteRange → Type 0
IsRange (closed start end) = (start ≤ end) × (end ≤ u64_max)
IsRange (from start) = start ≤ u64_max
IsRange (suffix n) = n ≤ u64_max

-- Whether the byte at `p`, of `len`, is asked for.
abbrev pub Asked : ℕ → ByteRange → ℕ → Type 0
Asked len (closed start end) p = (start ≤ p) × (p ≤ end)
Asked len (from start) p = start ≤ p
Asked len (suffix n) p = len ≤ p + n

-- Whether it is served.
abbrev pub Covers : RangeSelection → ℕ → Type 0
Covers full p = Unit
Covers unsatisfiable p = ⊥
Covers (partial start end) p = (start ≤ p) × (p ≤ end)

digits-contains : (sep : ℕ) (xs : Bytes) → sep < 48 → All IsDigit xs → contains sep xs ≡ false
unfolding contains
digits-contains sep [] h d = cc
digits-contains sep (c ∷ cs) h d = ground (arith, digits-contains sep cs h d.1)

dash-contains : (xs : Bytes) → contains comma xs ≡ false → contains comma (dash ∷ xs) ≡ false
unfolding contains
dash-contains xs h = h

comma-decimal : (n : ℕ) → contains comma (decimal n) ≡ false
comma-decimal n = digits-contains comma (decimal n) (omega arith) (decimal-All n)

dash-decimal : (n : ℕ) → contains dash (decimal n) ≡ false
dash-decimal n = digits-contains dash (decimal n) (omega arith) (decimal-All n)

-- No comma, and cut at the dash.
parse_spec-cut :
    (a b : Bytes) (len : ℕ)
    → contains comma a ≡ false
    → contains dash a ≡ false
    → contains comma b ≡ false
    → parse_spec (a ++ dash ∷ b) len ≡ select_range a b len
unfolding parse_spec
parse_spec-cut a b len ca da cb =
    rw (contains-append comma a (dash ∷ b) ca (dash-contains b cb), parse_spec)
      (rw (split_once-append dash a b da) refl)

-- A text that is not empty selects by its first byte's number.
select_range-bounded :
    (a b : Bytes) (len : ℕ) → 0 < length a → select_range a b len ≡ bounded_range a b len
unfolding select_range
select_range-bounded [] b len h = absurd (omega arith)
select_range-bounded (c ∷ cs) b len h = refl

bounded_range-closed :
    (a b : Bytes) (len start end : ℕ)
    → 0 < length b
    → parse_u64 a ≡ some start
    → parse_u64 b ≡ some end
    → bounded_range a b len ≡ closed_range start end len
unfolding bounded_range
bounded_range-closed a [] len start end h e k = absurd (omega arith)
bounded_range-closed a (c ∷ cs) len start end h e k = rw (e, bounded_range) (rw k refl)

bounded_range-open :
    (a : Bytes) (len start : ℕ)
    → parse_u64 a ≡ some start
    → bounded_range a [] len ≡ open_range start len
unfolding bounded_range
bounded_range-open a len start e = rw (e, bounded_range) refl

closed_range-Covers :
    (start end len p : ℕ)
    → start ≤ end
    → p < len
    → Covers (closed_range start end len) p ↔ ((start ≤ p) × (p ≤ end))
unfolding closed_range
closed_range-Covers start end len p le lt = elim (Bool-cases (ltb end start)) [
  | inl h ↦ absurd (ground arith)
  | inr h ↦ elim (Bool-cases (leb len start)) [
    | inl k ↦ rw h (rw k (ground arith))
    | inr k ↦ rw h (rw k (ground arith))
  ]
]

open_range-Covers : (start len p : ℕ) → p < len → Covers (open_range start len) p ↔ (start ≤ p)
unfolding open_range
open_range-Covers start len p lt = elim (Bool-cases (leb len start)) [
  | inl k ↦ rw k (ground arith)
  | inr k ↦ rw k (ground arith)
]

suffix_range-Covers :
    (text : Bytes) (n len p : ℕ)
    → parse_u64 text ≡ some n
    → p < len
    → Covers (suffix_range text len) p ↔ (len ≤ p + n)
unfolding suffix_range
suffix_range-Covers text n len p e lt = elim (Bool-cases (n == 0 || len == 0)) [
  | inl h ↦ rw (e, suffix_range) (rw h (ground arith))
  | inr h ↦ rw (e, suffix_range) (rw h (ground arith))
]

parse_spec-Covers :
    (r : ByteRange) (len p : ℕ)
    → IsRange r
    → p < len
    → Covers (parse_spec (written r) len) p ↔ Asked len r p
parse_spec-Covers (closed start end) len p (le, word) lt =
    rw
      (parse_spec-cut (decimal start) (decimal end) len (comma-decimal start) (dash-decimal start)
          (comma-decimal end)
        ∙ select_range-bounded (decimal start) (decimal end) len (length-decimal start)
        ∙ bounded_range-closed (decimal start) (decimal end) len start end (length-decimal end)
            (parse_u64-decimal start (omega arith)) (parse_u64-decimal end word))
      (closed_range-Covers start end len p le lt)
parse_spec-Covers (from start) len p word lt =
    rw
      (parse_spec-cut (decimal start) [] len (comma-decimal start) (dash-decimal start)
          (unfold contains in refl)
        ∙ select_range-bounded (decimal start) [] len (length-decimal start)
        ∙ bounded_range-open (decimal start) len start (parse_u64-decimal start word))
      (open_range-Covers start len p lt)
parse_spec-Covers (suffix n) len p word lt =
    rw
      (parse_spec-cut [] (decimal n) len (unfold contains in refl) (unfold contains in refl)
        (comma-decimal n))
      (unfold select_range in suffix_range-Covers (decimal n) n len p (parse_u64-decimal n word) lt)

module _ (to_str : Bytes → Option Bytes) where
  -- Of a range of 64-bit numbers that is written out in decimal, its start at most its end if it has
  -- both, the bytes served are exactly those asked for that the representation has.
  pub parse_range-Covers :
      (value : Bytes) (r : ByteRange) (len p : ℕ)
      → to_str value ≡ some (bytes_unit ++ written r)
      → IsRange r
      → p < len
      → Covers (parse_range to_str (some value) len) p ↔ Asked len r p
  unfolding parse_range
  parse_range-Covers value r len p text word lt =
      rw (text, parse_range)
        (rw (strip_prefix-append bytes_unit (written r)) (parse_spec-Covers r len p word lt))
