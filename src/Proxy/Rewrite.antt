-- ===== src/Proxy/Rewrite.antt =====
-- src/proxy/mod.rs: the links of JSON metadata, rewritten to lead back to the proxy. A document is
-- parsed and printed by `serde_json`.
use flywheel.Prelude.{Bool, true, false, Option, none, some, [], ◌∷◌, ◌++◌, if◌then◌else◌}
use flywheel.Bytes.{Bytes, codes, bytes_eq}
use flywheel.Proxy.{python, npm}
use flywheel.Proxy.Origins.{Urls, AllowedOrigins, check_origin}

-- `serde_json::Value`.
mutual
  pub data Json : Type 0 where
    null : Json
    boolean : Bool → Json
    number string : Bytes → Json
    array : Items → Json
    object : Fields → Json

  pub data Items : Type 0 where
    end_items : Items
    item : Json → Items → Items

  pub data Fields : Type 0 where
    end_fields : Fields
    field : Bytes → Json → Fields → Fields

abbrev pub tarball_name : Bytes
tarball_name = codes "tarball"

-- `fields.get(name)`
unfoldable pub get_field : Bytes → Fields → Option Json
get_field name end_fields = none
get_field name (field other value rest) =
    if bytes_eq other name then some value else get_field name rest

-- A write to a field that is there.
unfoldable pub set_field : Bytes → Json → Fields → Fields
set_field name new end_fields = end_fields
set_field name new (field other value rest) =
    let kept = set_field name new rest in
    if bytes_eq other name then field other new rest else field other value kept

module _ (urls : Urls) (encode : Bytes → Bytes) (allowed : AllowedOrigins urls) where
  open urls use {Url}

  module _ (upstream : Url) (route_prefix : Bytes) where
    -- The link to a tarball that the proxy serves; `encode` is base64url.
    unfoldable pub tarball_link : Url → Bytes
    tarball_link url = route_prefix ++ (codes "/proxy/npm/-/tarball/" ++ encode (urls.as_str url))

    -- The value of a field named `tarball`.
    unfoldable pub rewrite_link : Json → Json
    unfolding tarball_link
    rewrite_link (string text) = elim (urls.join upstream text) [
      | none ↦ string text
      | some url ↦
          if check_origin urls allowed npm url then string (tarball_link url) else string text
    ]
    rewrite_link value = value

    unfoldable mutual
      unfolding rewrite_link

      pub rewrite_tarballs : Json → Json
      rewrite_tarballs (object fields) = object (rewrite_fields fields)
      rewrite_tarballs (array items) = array (rewrite_items items)
      rewrite_tarballs null = null
      rewrite_tarballs (boolean b) = boolean b
      rewrite_tarballs (number n) = number n
      rewrite_tarballs (string s) = string s

      pub rewrite_items : Items → Items
      rewrite_items end_items = end_items
      rewrite_items (item value rest) = item (rewrite_tarballs value) (rewrite_items rest)

      pub rewrite_fields : Fields → Fields
      rewrite_fields end_fields = end_fields
      rewrite_fields (field name value rest) =
          let inside = rewrite_tarballs value in
          field name (if bytes_eq name tarball_name then rewrite_link value else inside)
            (rewrite_fields rest)

    -- `routed_download_url`: the fragment stays outside of what is encoded.
    unfoldable pub routed_download_url : Bytes → Url → Bytes
    routed_download_url route url =
        (route_prefix ++ (route ++ 47 ∷ encode (urls.as_str (urls.without_fragment url))))
        ++ elim (urls.fragment url) [ none ↦ [] | some text ↦ 35 ∷ text ]

    -- One of the two links of a file.
    unfoldable pub route_field : Bytes → Fields → Fields
    unfolding get_field set_field routed_download_url
    route_field name fields = elim (get_field name fields) [
      | some (string text) ↦ elim (urls.join upstream text) [
        | none ↦ fields
        | some url ↦
            if check_origin urls allowed python url
            then set_field name (string (routed_download_url (codes "/proxy/python/files") url))
                fields
            else fields
      ]
      | _ ↦ fields
    ]

    unfoldable pub route_file : Json → Json
    unfolding route_field
    route_file (object fields) =
        object (route_field (codes "provenance") (route_field (codes "url") fields))
    route_file value = value

    unfoldable pub route_files : Items → Items
    unfolding route_file
    route_files end_items = end_items
    route_files (item file rest) = item (route_file file) (route_files rest)

    -- `rewrite_python_json`, between the parser and the printer.
    unfoldable pub rewrite_python_json : Bool → Json → Json
    unfolding route_files get_field set_field
    rewrite_python_json false metadata = metadata
    rewrite_python_json true (object fields) = elim (get_field (codes "files") fields) [
      | some (array files) ↦ object (set_field (codes "files") (array (route_files files)) fields)
      | _ ↦ object fields
    ]
    rewrite_python_json true value = value
