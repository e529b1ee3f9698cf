-- ===== src/Proxy/Negotiation.antt =====
-- src/proxy/mod.rs: the choice of a representation from an Accept header. A quality is read by
-- the standard library's `f32` parser and clamped to [0, 1]; of the result only its order is used,
-- so that it is a number, or NaN, which compares with nothing.
use flywheel.Prelude.{
  ℕ, Bool, true, false, ◌&&◌, ◌||◌, Option, none, some, List, [], ◌∷◌, ltb, leb, ◌==◌,
  if◌then◌else◌,
}
use flywheel.Bytes.{Bytes, codes, bytes_eq}
use flywheel.Text.{split, split_once, trim, trim_start_matches}
use flywheel.Discovery.{ascii_lowercase}
use flywheel.Proxy.{Transform, python_html, python_json, npm_metadata}

pub data Quality : Type 0 where
  nan : Quality
  number : ℕ → Quality

-- `>` and `==` on `f32`.
abbrev pub exceeds : Quality → Quality → Bool
exceeds (number a) (number b) = ltb b a
exceeds _ _ = false

abbrev pub equals : Quality → Quality → Bool
equals (number a) (number b) = a == b
equals _ _ = false

-- A candidate's best range: its specificity and its quality.
abbrev pub Candidate : Type 0
Candidate = Option (ℕ × Quality)

unfoldable pub offer : Candidate → ℕ → Quality → Candidate
offer none specificity quality = some (specificity, quality)
offer (some (current_specificity, current_quality)) specificity quality =
    if ltb current_specificity specificity
      || (specificity == current_specificity && exceeds quality current_quality)
    then some (specificity, quality)
    else some (current_specificity, current_quality)

unfoldable pub outranks : ℕ × Quality → ℕ × Quality → Bool
outranks (s, q) (s', q') = exceeds q q' || (equals q q' && (ltb 0 s && leb s' s))

unfoldable pub acceptable : Candidate → Candidate
acceptable none = none
acceptable (some (s, q)) = if exceeds q (number 0) then some (s, q) else none

pub data PythonRepresentation : Type 0 where
  html_page json_page : PythonRepresentation

abbrev not_blank : Bytes → Bool
not_blank [] = false
not_blank (_ ∷ _) = true

-- What a media type names.
pub data Named : Type 0 where
  first second both neither : ℕ → Named

-- The two candidates: HTML and JSON, or abbreviated and full.
abbrev pub Candidates : Type 0
Candidates = Candidate × Candidate

unfoldable pub offer_named : Named → Quality → Candidates → Candidates
unfolding offer
offer_named (first s) q (a, b) = (offer a s q, b)
offer_named (second s) q (a, b) = (a, offer b s q)
offer_named (both s) q (a, b) = (offer a s q, offer b s q)
offer_named (neither s) q (a, b) = (a, b)

-- The first candidate is HTML.
unfoldable pub python_named : Bytes → Named
python_named media =
    if bytes_eq media (codes "application/vnd.pypi.simple.v1+json")
      || bytes_eq media (codes "application/vnd.pypi.simple.latest+json")
    then second 2
    else if bytes_eq media (codes "application/vnd.pypi.simple.v1+html")
        || (bytes_eq media (codes "application/vnd.pypi.simple.latest+html")
            || bytes_eq media (codes "text/html"))
    then first 2
    else if bytes_eq media (codes "application/*")
    then both 1
    else if bytes_eq media (codes "text/*")
    then first 1
    else if bytes_eq media (codes "*/*")
    then both 0
    else neither 0

-- The first candidate is the abbreviated document.
unfoldable pub npm_named : Bytes → Named
npm_named media =
    if bytes_eq media (codes "application/vnd.npm.install-v1+json")
    then first 2
    else if bytes_eq media (codes "application/json")
    then second 2
    else if bytes_eq media (codes "application/*")
    then both 1
    else if bytes_eq media (codes "*/*")
    then both 0
    else neither 0

-- The last `match` of `negotiate_python`: JSON takes the ties.
unfoldable pub choose_python : Candidate → Candidate → Option PythonRepresentation
unfolding outranks
choose_python none none = none
choose_python (some html) none = some html_page
choose_python none (some json) = some json_page
choose_python (some html) (some json) =
    if outranks json html then some json_page else some html_page

-- The last `match` of `negotiate_npm`: whether the abbreviated document is served.
unfoldable pub choose_npm : Candidate → Candidate → Option Bool
unfolding outranks
choose_npm none none = none
choose_npm (some abbreviated) none = some true
choose_npm none (some whole) = some false
choose_npm (some abbreviated) (some whole) = some (outranks abbreviated whole)

module _ (parse_quality : Bytes → Option Quality) where
  -- The first parameter named `q` whose value is a number.
  unfoldable pub find_quality : List Bytes → Option Quality
  find_quality [] = none
  find_quality (field ∷ fields) = elim (split_once 61 (trim field)) [
    | none ↦ find_quality fields
    | some (name, value) ↦ elim (bytes_eq (ascii_lowercase (trim name)) (codes "q")) [
      | false ↦ find_quality fields
      | true ↦ elim (parse_quality (trim value)) [
        | none ↦ find_quality fields
        | some quality ↦ some quality
      ]
    ]
  ]

  -- `media_range`; `one` is the quality 1.
  unfoldable pub media_range : Quality → Bytes → Bytes × Quality
  unfolding find_quality
  media_range one range = elim (split 59 range) [
    | [] ↦ ([], one)
    | media ∷ fields ↦ (
      ascii_lowercase (trim media),
      elim (find_quality fields) [ none ↦ one | some quality ↦ quality ],
    )
  ]

  module _ (one : Quality) where
    -- The loop over the ranges, for what a media type names.
    unfoldable pub offers : (Bytes → Named) → List Bytes → Candidates → Candidates
    unfolding media_range offer_named
    offers named [] found = found
    offers named (range ∷ ranges) found =
        let (media, quality) = media_range one range in
        offers named ranges (offer_named (named media) quality found)

    -- The header, unless it is blank.
    abbrev pub filled : Option Bytes → Option Bytes
    filled none = none
    filled (some accept) = elim (trim accept) [ [] ↦ none | c ∷ cs ↦ some accept ]

    unfoldable pub negotiate_python : Option Bytes → Option PythonRepresentation
    unfolding offers python_named acceptable choose_python
    negotiate_python accept = elim (filled accept) [
      | none ↦ some html_page
      | some ranges ↦
          let (html, json) = offers python_named (split 44 ranges) (none, none) in
          choose_python (acceptable html) (acceptable json)
    ]

    unfoldable pub negotiate_npm : Option Bytes → Option Bool
    unfolding offers npm_named acceptable choose_npm
    negotiate_npm accept = elim (filled accept) [
      | none ↦ some false
      | some ranges ↦
          let (abbreviated, whole) = offers npm_named (split 44 ranges) (none, none) in
          choose_npm (acceptable abbreviated) (acceptable whole)
    ]

    -- `Transform::python_simple`; trimming both ends leaves a byte where trimming the start does.
    unfoldable pub python_simple : Bytes → Bytes → Option Bytes → Option Transform
    unfolding negotiate_python
    python_simple route_prefix path accept =
        let is_project_page = not_blank (trim_start_matches 47 path) in
        elim (negotiate_python accept) [
          | none ↦ none
          | some html_page ↦ some (python_html route_prefix is_project_page)
          | some json_page ↦ some (python_json route_prefix is_project_page)
        ]

    -- `Transform::npm_metadata`
    unfoldable pub npm_transform : Bytes → Option Bytes → Option Transform
    unfolding negotiate_npm
    npm_transform route_prefix accept = elim (negotiate_npm accept) [
      | none ↦ none
      | some abbreviated ↦ some (npm_metadata route_prefix abbreviated)
    ]
