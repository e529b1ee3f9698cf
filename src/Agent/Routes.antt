-- ===== src/Agent/Routes.antt =====
-- src/agent/mod.rs: `classify`, and the headers that do not pass a hop.
use flywheel.Prelude.{
  ℕ, Bool, true, false, not, ◌&&◌, ◌||◌, Option, none, some, List, [], ◌∷◌, filter, if◌then◌else◌,
}
use flywheel.Bytes.{Bytes, codes, bytes_eq, starts_with}
use flywheel.Text.{split, join, trim_start_matches}
use flywheel.Agent.{
  Method, get, head, put, post, other_method, RouteClass, build_cache_read, build_cache_write,
  passthrough, RoutedKey, Headers,
}

abbrev pub slash : ℕ
slash = 47

abbrev pub build_cache : Bytes
build_cache = codes "build-cache"

-- A build-cache object's kind and identity.
unfoldable pub build_cache_object : List Bytes → Option (Bytes × Bytes)
build_cache_object (root ∷ (a ∷ (key ∷ []))) =
    if bytes_eq root build_cache && bytes_eq a (codes "http")
    then some (codes "http-cache", key)
    else none
build_cache_object (root ∷ (a ∷ (b ∷ (hash ∷ [])))) =
    if bytes_eq root build_cache && bytes_eq a (codes "bazel")
    then (if bytes_eq b (codes "cas")
        then some (codes "artifact", hash)
        else if bytes_eq b (codes "ac")
        then some (codes "bazel-action", hash)
        else none)
    else none
build_cache_object _ = none

-- The other objects with a stable identity; a proxied path is the rest of the segments.
unfoldable pub plain_object : List Bytes → Option (Bytes × Bytes)
plain_object (root ∷ (name ∷ [])) =
    if bytes_eq root (codes "references") then some (codes "reference", name) else none
plain_object (root ∷ (a ∷ (b ∷ rest))) =
    if bytes_eq root (codes "proxy")
    then some (a, join slash (b ∷ rest))
    else if bytes_eq root (codes "artifacts") && (elim rest [ [] ↦ true | _ ∷ _ ↦ false ])
    then some (codes "artifact", b)
    else none
plain_object _ = none

unfoldable pub class_of : Method → RouteClass
class_of get = build_cache_read
class_of head = build_cache_read
class_of put = build_cache_write
class_of post = build_cache_write
class_of other_method = passthrough

-- `path.trim_start_matches('/').split('/')`
unfoldable pub segments : Bytes → List Bytes
segments path = split slash (trim_start_matches slash path)

unfoldable pub classify : Method → Bytes → RoutedKey
unfolding build_cache_object plain_object class_of segments
classify method path = elim (build_cache_object (segments path)) [
  | some (kind, id) ↦ record { kind = kind; id = id; class = class_of method }
  | none ↦ elim (plain_object (segments path)) [
    | some (kind, id) ↦ record { kind = kind; id = id; class = passthrough }
    | none ↦ record { kind = codes "path"; id = path; class = passthrough }
  ]
]

-- `/channels`, and what is below it.
unfoldable pub is_channel_path : Bytes → Bool
is_channel_path path = bytes_eq path (codes "/channels") || starts_with path (codes "/channels/")

unfoldable pub one_of : List Bytes → Bytes → Bool
one_of [] name = false
one_of (n ∷ names) name = bytes_eq n name || one_of names name

abbrev hop_headers : List Bytes
hop_headers =
    codes "connection"
    ∷ codes "keep-alive"
    ∷ codes "te"
    ∷ codes "trailer"
    ∷ codes "transfer-encoding"
    ∷ codes "upgrade"
    ∷ []

unfoldable pub skip_request_header : Bytes → Bool
unfolding one_of
skip_request_header name =
    one_of
      (codes "proxy-authenticate"
        ∷ codes "proxy-authorization"
        ∷ codes "host"
        ∷ codes "expect"
        ∷ hop_headers)
      name

unfoldable pub skip_response_header : Bytes → Bool
unfolding one_of
skip_response_header name = one_of hop_headers name

-- The headers that pass.
abbrev pub passing : (Bytes → Bool) → Headers → Headers
passing skip headers = filter (λ h. not (skip h.0)) headers
