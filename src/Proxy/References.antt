-- ===== src/Proxy/References.antt =====
-- src/proxy/mod.rs: the reference under which an upstream document is cached.
use flywheel.Prelude.{◌≡◌, ◌<◌, ◌^◌, sym, ap, ◌∙◌, ◌++◌, arith, length}
use flywheel.Bytes.{Bytes, to_be_bytes, from_be_bytes}
use flywheel.Bytes.Order.{append_inj}
use flywheel.Bytes.Words.{length-to_be_bytes, from_be_bytes-to_be_bytes}
use flywheel.Proxy.Origins.{Urls, reference_preimage}

module _ (urls : Urls) where
  open urls use {Url}

  -- What is hashed for a cached document determines the text of its URL and the variant, where
  -- the texts' lengths are 64-bit words: no two documents share it, whatever their URLs end in.
  pub reference_preimage_inj :
      (url url' : Url) (variant variant' : Bytes)
      → length (urls.as_str url) < 256 ^ 8
      → length (urls.as_str url') < 256 ^ 8
      → reference_preimage urls url variant ≡ reference_preimage urls url' variant'
      → (urls.as_str url ≡ urls.as_str url') × (variant ≡ variant')
  unfolding reference_preimage
  reference_preimage_inj url url' variant variant' h h' e =
      let text = urls.as_str url in
      let text' = urls.as_str url' in
      let (prefix, tail) =
        append_inj (to_be_bytes 8 (length text)) (to_be_bytes 8 (length text')) (text ++ variant)
          (text' ++ variant')
          (length-to_be_bytes 8 (length text) ∙ sym (length-to_be_bytes 8 (length text'))) e in
      let same : length text ≡ length text' = omega (
        arith,
        ap from_be_bytes prefix,
        from_be_bytes-to_be_bytes 8 (length text) h,
        from_be_bytes-to_be_bytes 8 (length text') h',
      ) in
      append_inj text text' variant variant' same tail
