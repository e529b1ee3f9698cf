-- ===== src/Proxy/Tarballs.antt =====
-- src/proxy/mod.rs: where the rewritten links lead.
use flywheel.Prelude.{
  ◌≡◌, refl, ◌⊎◌, inl, inr, Bool, true, false, ◌&&◌, ◌||◌, Option, none, some, [], ◌++◌,
  if◌then◌else◌, arith, Bool-cases, Option-cases,
}
use flywheel.Bytes.{Bytes, codes, bytes_eq}
use flywheel.Storage.Errors.{ok, err}
use flywheel.Proxy.{npm}
use flywheel.Proxy.Origins.{
  Urls, AllowedOrigins, check_origin, checked, decode_url, invalid_encoded_url,
}
use flywheel.Proxy.Rewrite.{
  Json, null, boolean, number, string, array, object, Items, end_items, item, Fields, end_fields,
  field, tarball_name, tarball_link, rewrite_link, rewrite_tarballs, rewrite_items, rewrite_fields,
}

abbrev is_missing : Option Bytes → Bool
is_missing none = true
is_missing (some _) = false

module _ (urls : Urls) (encode : Bytes → Bytes) (allowed : AllowedOrigins urls) where
  open urls use {Url}

  module _ (upstream : Url) (route_prefix : Bytes) where
    -- A link is one of the proxy's, to a URL that it may fetch, or one that it may not fetch.
    abbrev pub Leads : Json → Type 0
    Leads (string text) =
        ((url : Url) × (check_origin urls allowed npm url ≡ true)
          × (text ≡ tarball_link urls encode allowed upstream route_prefix url))
        ⊎ ((url : Url)
            → urls.join upstream text ≡ some url
            → check_origin urls allowed npm url ≡ false)
    Leads value = Unit

    -- It holds of every field named `tarball` that is not inside another one.
    abbrev mutual
      pub AllLinks : Json → Type 0
      AllLinks (object fields) = AllFields fields
      AllLinks (array items) = AllItems items
      AllLinks null = Unit
      AllLinks (boolean _) = Unit
      AllLinks (number _) = Unit
      AllLinks (string _) = Unit

      pub AllItems : Items → Type 0
      AllItems end_items = Unit
      AllItems (item value rest) = AllLinks value × AllItems rest

      pub AllFields : Fields → Type 0
      AllFields end_fields = Unit
      AllFields (field name value rest) =
          (if bytes_eq name tarball_name then Leads value else AllLinks value) × AllFields rest

    rewrite_link-Leads :
        (value : Json) → Leads (rewrite_link urls encode allowed upstream route_prefix value)
    unfolding rewrite_link
    rewrite_link-Leads null = tt
    rewrite_link-Leads (boolean _) = tt
    rewrite_link-Leads (number _) = tt
    rewrite_link-Leads (array _) = tt
    rewrite_link-Leads (object _) = tt
    rewrite_link-Leads (string text) = elim (Option-cases (urls.join upstream text)) [
      | inl e ↦ rw (e, rewrite_link) (inr λ url k. cc)
      | inr (url, e) ↦ elim (Bool-cases (check_origin urls allowed npm url)) [
        | inl passes ↦ rw (e, rewrite_link) (rw passes (inl (url, passes, refl)))
        | inr refused ↦ rw (e, rewrite_link) (rw refused (inr λ other k. ground arith))
      ]
    ]

    mutual
      unfolding rewrite_tarballs rewrite_items rewrite_fields

      -- Every tarball link of a rewritten document, at any depth, is one of the proxy's own to a
      -- URL whose origin is allowed for npm, or does not lead to such a URL: none that the proxy
      -- may fetch is left pointing past it.
      pub rewrite_tarballs-AllLinks :
          (value : Json)
          → AllLinks (rewrite_tarballs urls encode allowed upstream route_prefix value)
      rewrite_tarballs-AllLinks null = tt
      rewrite_tarballs-AllLinks (boolean _) = tt
      rewrite_tarballs-AllLinks (number _) = tt
      rewrite_tarballs-AllLinks (string _) = tt
      rewrite_tarballs-AllLinks (array items) = rewrite_items-AllItems items
      rewrite_tarballs-AllLinks (object fields) = rewrite_fields-AllFields fields

      rewrite_items-AllItems :
          (items : Items) → AllItems (rewrite_items urls encode allowed upstream route_prefix items)
      rewrite_items-AllItems end_items = tt
      rewrite_items-AllItems (item value rest) =
          (rewrite_tarballs-AllLinks value, rewrite_items-AllItems rest)

      rewrite_fields-AllFields :
          (fields : Fields)
          → AllFields (rewrite_fields urls encode allowed upstream route_prefix fields)
      rewrite_fields-AllFields end_fields = tt
      rewrite_fields-AllFields (field name value rest) =
          elim (Bool-cases (bytes_eq name tarball_name)) [
            | inl named ↦ rw named (rewrite_link-Leads value, rewrite_fields-AllFields rest)
            | inr other ↦ rw other (rewrite_tarballs-AllLinks value, rewrite_fields-AllFields rest)
          ]

    -- A URL over HTTP that carries no credentials.
    abbrev pub is_plain : Url → Bool
    is_plain url =
        (bytes_eq (urls.scheme url) (codes "http") || bytes_eq (urls.scheme url) (codes "https"))
        && (bytes_eq (urls.username url) [] && is_missing (urls.password url))

    -- Where base64url decodes what it encodes and a URL parses back from its text: a tarball whose
    -- URL has an allowed origin is rewritten to a link of the proxy's, and following this link the
    -- proxy fetches that URL if it is over HTTP and carries no credentials, and refuses it
    -- otherwise.
    pub decode_url-rewrite_link :
        (decode : Bytes → Option Bytes) (text : Bytes) (url : Url)
        → decode (encode (urls.as_str url)) ≡ some (urls.as_str url)
        → urls.parse (urls.as_str url) ≡ some url
        → urls.join upstream text ≡ some url
        → check_origin urls allowed npm url ≡ true
        → (rewrite_link urls encode allowed upstream route_prefix (string text)
            ≡ string (route_prefix ++ (codes "/proxy/npm/-/tarball/" ++ encode (urls.as_str url))))
          × (decode_url urls allowed decode npm (encode (urls.as_str url)) []
              ≡ (if is_plain url then ok url else err invalid_encoded_url))
    unfolding rewrite_link tarball_link decode_url checked bytes_eq
    decode_url-rewrite_link decode text url decoded parsed joined passes =
        (rw (joined, rewrite_link) (rw passes refl), ground arith)
