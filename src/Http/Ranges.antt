-- ===== src/Http/Ranges.antt =====
-- src/transport/http/mod.rs: what a selected range covers, and which requests select it.
use flywheel.Prelude.{
  ℕ, ◌-◌, ◌≤◌, ◌<◌, [], ◌∷◌, Option, none, some, arith, Bool-cases, Option-cases, inl, inr, ltb,
  leb, ◌==◌, ◌||◌, if◌then◌else◌,
}
use flywheel.Bytes.{Bytes}
use flywheel.Text.{strip_prefix, contains, split_once, parse_u64}
use flywheel.Http.Range.{
  RangeSelection, full, unsatisfiable, partial, bytes_unit, comma, dash, suffix_range, open_range,
  closed_range, bounded_range, select_range, parse_spec, parse_range,
}

-- The bytes that a selection covers lie inside a representation of `len` bytes.
abbrev pub Within : ℕ → RangeSelection → Type 0
Within len full = Unit
Within len unsatisfiable = Unit
Within len (partial start end) = (start ≤ end) × (end < len)

closed_range-Within : (start end len : ℕ) → Within len (closed_range start end len)
unfolding closed_range
closed_range-Within start end len = elim (Bool-cases (ltb end start)) [
  | inl h ↦ rw h tt
  | inr h ↦ elim (Bool-cases (leb len start)) [
    | inl k ↦ rw h (rw k tt)
    | inr k ↦ rw h (rw k (ground arith, ground arith))
  ]
]

open_range-Within : (start len : ℕ) → Within len (open_range start len)
unfolding open_range
open_range-Within start len = elim (Bool-cases (leb len start)) [
  | inl k ↦ rw k tt
  | inr k ↦ rw k (ground arith, ground arith)
]

suffix_range-Within : (end : Bytes) (len : ℕ) → Within len (suffix_range end len)
unfolding suffix_range
suffix_range-Within end len = elim (Option-cases (parse_u64 end)) [
  | inl e ↦ rw (e, suffix_range) tt
  | inr (suffix, e) ↦ rw (e, suffix_range) (at suffix)
]
  where
    at :
        (suffix : ℕ)
        → Within len
            (if suffix == 0 || len == 0 then unsatisfiable else partial (len - suffix) (len - 1))
    at suffix = elim (Bool-cases (suffix == 0 || len == 0)) [
      | inl h ↦ rw h tt
      | inr h ↦ rw h (ground arith, ground arith)
    ]

bounded_range-Within : (start end : Bytes) (len : ℕ) → Within len (bounded_range start end len)
unfolding bounded_range
bounded_range-Within start end len = elim (Option-cases (parse_u64 start)) [
  | inl e ↦ rw (e, bounded_range) tt
  | inr (first, e) ↦ rw (e, bounded_range) (at first end)
]
  where
    at :
        (first : ℕ) (end : Bytes)
        → Within len (elim end [
          | [] ↦ open_range first len
          | c ∷ cs ↦ elim (parse_u64 (c ∷ cs)) [
            | none ↦ full
            | some last ↦ closed_range first last len
          ]
        ])
    at first [] = open_range-Within first len
    at first (c ∷ cs) = elim (Option-cases (parse_u64 (c ∷ cs))) [
      | inl e ↦ rw e tt
      | inr (last, e) ↦ rw e (closed_range-Within first last len)
    ]

select_range-Within : (start end : Bytes) (len : ℕ) → Within len (select_range start end len)
unfolding select_range
select_range-Within [] end len = suffix_range-Within end len
select_range-Within (c ∷ cs) end len = bounded_range-Within (c ∷ cs) end len

parse_spec-Within : (range : Bytes) (len : ℕ) → Within len (parse_spec range len)
unfolding parse_spec
parse_spec-Within range len = elim (Bool-cases (contains comma range)) [
  | inl h ↦ rw (h, parse_spec) tt
  | inr h ↦ elim (Option-cases (split_once dash range)) [
    | inl e ↦ rw (h, parse_spec) (rw e tt)
    | inr ((start, end), e) ↦ rw (h, parse_spec) (rw e (select_range-Within start end len))
  ]
]

module _ (to_str : Bytes → Option Bytes) where
  -- Whatever the header holds, a range that is selected is inside the representation: its start is
  -- at most its end, and this is below the length.
  pub parse_range-Within :
      (value : Option Bytes) (len : ℕ) → Within len (parse_range to_str value len)
  unfolding parse_range
  parse_range-Within none len = tt
  parse_range-Within (some value) len = elim (Option-cases (to_str value)) [
    | inl e ↦ rw (e, parse_range) tt
    | inr (text, e) ↦ elim (Option-cases (strip_prefix bytes_unit text)) [
      | inl k ↦ rw (e, parse_range) (rw k tt)
      | inr (range, k) ↦ rw (e, parse_range) (rw k (parse_spec-Within range len))
    ]
  ]
