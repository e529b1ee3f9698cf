-- ===== src/Proxy/Origins.antt =====
-- src/proxy/mod.rs: the origins that each protocol may fetch from, and the URLs built from a
-- request. The `url` crate is a parameter.
use flywheel.Prelude.{
  length, Bool, true, false, not, ◌&&◌, ◌||◌, Option, none, some, List, [], ◌∷◌, ◌++◌,
  if◌then◌else◌,
}
use flywheel.Bytes.{Bytes, codes, bytes_eq, to_be_bytes}
use flywheel.Storage.Errors.{Result, ok, err}
use flywheel.Cache.Publication.{CacheError}
use flywheel.Proxy.{Protocol, go, python, npm, cargo_index, cargo_crate}

pub record Urls : Type 1 where
  pub Url : Type 0
  pub Origin : Type 0
  pub origin : Url → Origin
  -- Equality of origins; an opaque one equals none in a set.
  pub same_origin : Origin → Origin → Bool
  pub parse : Bytes → Option Url
  pub join : Url → Bytes → Option Url
  pub as_str : Url → Bytes
  pub scheme : Url → Bytes
  pub username : Url → Bytes
  pub password : Url → Option Bytes
  pub path : Url → Bytes
  pub set_path : Url → Bytes → Url
  pub fragment : Url → Option Bytes
  -- `set_fragment(None)`
  pub without_fragment : Url → Url

pub data ProxyError : Type 0 where
  busy invalid_encoded_url disallowed_origin url_error http_error unavailable malformed : ProxyError
  in_cache : CacheError → ProxyError

abbrev is_empty_text : Bytes → Bool
is_empty_text [] = true
is_empty_text (_ ∷ _) = false

abbrev is_present : Option Bytes → Bool
is_present none = false
is_present (some _) = true

module _ (urls : Urls) where
  open urls use {Url, Origin}

  -- The set of origins of each protocol.
  pub record AllowedOrigins : Type 0 where
    pub of_go : List Origin
    pub of_python : List Origin
    pub of_npm : List Origin
    pub of_cargo_index : List Origin
    pub of_cargo_crate : List Origin

  pub record UpstreamBases : Type 0 where
    pub go_base : Url
    pub python_base : Url
    pub npm_base : Url
    pub cargo_index_base : Url
    pub cargo_crate_base : Url

  unfoldable pub for_protocol : AllowedOrigins → Protocol → List Origin
  for_protocol allowed go = allowed.of_go
  for_protocol allowed python = allowed.of_python
  for_protocol allowed npm = allowed.of_npm
  for_protocol allowed cargo_index = allowed.of_cargo_index
  for_protocol allowed cargo_crate = allowed.of_cargo_crate

  -- The `match` of `url`.
  unfoldable pub base_of : UpstreamBases → Protocol → Url
  base_of bases go = bases.go_base
  base_of bases python = bases.python_base
  base_of bases npm = bases.npm_base
  base_of bases cargo_index = bases.cargo_index_base
  base_of bases cargo_crate = bases.cargo_crate_base

  -- `HashSet::contains`
  unfoldable pub has_origin : List Origin → Origin → Bool
  has_origin [] origin = false
  has_origin (o ∷ os) origin = urls.same_origin o origin || has_origin os origin

  -- The origins of the entries, unless one does not parse.
  unfoldable pub default_origins : List Bytes → Option (List Origin)
  default_origins [] = some []
  default_origins (entry ∷ entries) = elim (urls.parse entry) [
    | none ↦ none
    | some url ↦ elim (default_origins entries) [
      | none ↦ none
      | some origins ↦ some (urls.origin url ∷ origins)
    ]
  ]

  -- `origin_set`; a set is a list here.
  unfoldable pub origin_set : Url → List Origin → List Bytes → Option (List Origin)
  unfolding default_origins
  origin_set base shared defaults = elim (default_origins defaults) [
    | none ↦ none
    | some origins ↦ some (urls.origin base ∷ (shared ++ origins))
  ]

  -- `check_origin`: whether the URL passes.
  unfoldable pub check_origin : AllowedOrigins → Protocol → Url → Bool
  unfolding has_origin for_protocol
  check_origin allowed protocol url = has_origin (for_protocol allowed protocol) (urls.origin url)

  module _ (allowed : AllowedOrigins) where
    -- A URL, if its origin is allowed.
    unfoldable pub checked : Protocol → Url → Result ProxyError Url
    unfolding check_origin
    checked protocol url =
        if check_origin allowed protocol url then ok url else err disallowed_origin

    -- `url`
    unfoldable pub build_url : UpstreamBases → Protocol → Bytes → Result ProxyError Url
    unfolding base_of checked
    build_url bases protocol path = elim (urls.join (base_of bases protocol) path) [
      | none ↦ err url_error
      | some url ↦ checked protocol url
    ]

    -- The target of `fetch_encoded_url`; `decode` is base64url, checked to be UTF-8.
    unfoldable pub decode_url :
        (Bytes → Option Bytes) → Protocol → Bytes → Bytes → Result ProxyError Url
    unfolding checked
    decode_url decode protocol encoded suffix = elim (decode encoded) [
      | none ↦ err invalid_encoded_url
      | some text ↦ elim (urls.parse text) [
        | none ↦ err url_error
        | some url ↦
            if (not (bytes_eq (urls.scheme url) (codes "http"))
                && not (bytes_eq (urls.scheme url) (codes "https")))
              || (not (is_empty_text (urls.username url)) || is_present (urls.password url))
            then err invalid_encoded_url
            else (let target =
                  if is_empty_text suffix
                  then url
                  else urls.set_path url (urls.path url ++ suffix) in
                checked protocol target)
      ]
    ]

  -- What `proxy_reference` hashes.
  unfoldable pub reference_preimage : Url → Bytes → Bytes
  reference_preimage url variant =
      let text = urls.as_str url in to_be_bytes 8 (length text) ++ (text ++ variant)

  unfoldable pub protocol_name : Protocol → Bytes
  protocol_name go = codes "go"
  protocol_name python = codes "python"
  protocol_name npm = codes "npm"
  protocol_name cargo_index = codes "cargo-index"
  protocol_name cargo_crate = codes "cargo-crate"

  unfoldable pub proxy_reference :
      (sha256 hex_encode : Bytes → Bytes) → Protocol → Url → Bytes → Bytes
  unfolding reference_preimage protocol_name
  proxy_reference sha256 hex_encode protocol url variant =
      codes "proxy:"
      ++ (protocol_name protocol ++ 58 ∷ hex_encode (sha256 (reference_preimage url variant)))
