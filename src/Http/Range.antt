-- ===== src/Http/Range.antt =====
-- src/transport/http/mod.rs: `parse_range`, the byte range of a request.
use flywheel.Prelude.{
  ℕ, ◌-◌, min, true, false, [], ◌∷◌, Option, none, some, ltb, leb, ◌==◌, ◌||◌, if◌then◌else◌,
}
use flywheel.Bytes.{Bytes, codes}
use flywheel.Text.{strip_prefix, contains, split_once, parse_u64}

pub data RangeSelection : Type 0 where
  full unsatisfiable : RangeSelection
  partial : ℕ → ℕ → RangeSelection

-- `bytes=`
abbrev pub bytes_unit : Bytes
bytes_unit = codes "bytes="

abbrev pub comma : ℕ
comma = 44

abbrev pub dash : ℕ
dash = 45

-- `-suffix`: the last `suffix` bytes.
unfoldable pub suffix_range : Bytes → ℕ → RangeSelection
suffix_range end len = elim (parse_u64 end) [
  | none ↦ full
  | some suffix ↦
      if suffix == 0 || len == 0 then unsatisfiable else partial (len - suffix) (len - 1)
]

-- `start-`
unfoldable pub open_range : ℕ → ℕ → RangeSelection
open_range start len =
    if leb len start then unsatisfiable else partial start (min (len - 1) (len - 1))

-- `start-end`
unfoldable pub closed_range : ℕ → ℕ → ℕ → RangeSelection
closed_range start end len =
    if ltb end start
    then full
    else if leb len start
    then unsatisfiable
    else partial start (min end (len - 1))

unfoldable pub bounded_range : Bytes → Bytes → ℕ → RangeSelection
unfolding open_range closed_range
bounded_range start end len = elim (parse_u64 start) [
  | none ↦ full
  | some first ↦ elim end [
    | [] ↦ open_range first len
    | c ∷ cs ↦ elim (parse_u64 (c ∷ cs)) [ none ↦ full | some last ↦ closed_range first last len ]
  ]
]

unfoldable pub select_range : Bytes → Bytes → ℕ → RangeSelection
unfolding suffix_range bounded_range
select_range [] end len = suffix_range end len
select_range (c ∷ cs) end len = bounded_range (c ∷ cs) end len

-- The text after `bytes=`.
unfoldable pub parse_spec : Bytes → ℕ → RangeSelection
unfolding select_range
parse_spec range len = elim (contains comma range) [
  | true ↦ full
  | false ↦ elim (split_once dash range) [
    | none ↦ full
    | some (start, end) ↦ select_range start end len
  ]
]

-- `HeaderValue::to_str` is the `http` crate's: the text of a value, where it is text.
module _ (to_str : Bytes → Option Bytes) where
  unfoldable pub parse_range : Option Bytes → ℕ → RangeSelection
  unfolding parse_spec
  parse_range none len = full
  parse_range (some value) len = elim (to_str value) [
    | none ↦ full
    | some text ↦ elim (strip_prefix bytes_unit text) [
      | none ↦ full
      | some range ↦ parse_spec range len
    ]
  ]
