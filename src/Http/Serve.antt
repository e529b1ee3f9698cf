-- ===== src/Http/Serve.antt =====
-- src/transport/http/mod.rs: `serve_artifact`, the response of every read of a body.
use flywheel.Prelude.{
  ℕ, ◌+◌, ◌-◌, Bool, true, false, not, ◌&&◌, ◌||◌, Option, none, some, List, [], ◌∷◌, ◌++◌, ltb,
  ◌==◌, if◌then◌else◌,
}
use flywheel.Bytes.{Bytes, codes, bytes_eq}
use flywheel.Text.{split, trim, decimal}
use flywheel.Storage.Ids.{ChannelId, ArtifactId, ArtifactMetadata, StoredEncoding, identity, zstd}
use flywheel.Storage.Errors.{Result, ok, err}
use flywheel.Cache.Publication.{CacheError}
use flywheel.Http.{
  HeaderName, content_length, content_type, content_range, content_encoding, accept_ranges, etag,
  vary, Body, empty, file_bytes, whole_file, decoded, Response, plain,
}
use flywheel.Http.Range.{RangeSelection, full, partial, unsatisfiable, parse_range}
use flywheel.Http.Server.{Services, Server, acquire_foreground, release, busy_response}
use flywheel.Identity.{Hex, display_artifact}

-- The headers of a request that the handlers read, as raw values.
pub record RequestHeaders : Type 0 where
  pub content_length : Option Bytes
  pub content_type : Option Bytes
  pub range : Option Bytes
  pub accept_encoding : Option Bytes
  pub authorization : Option Bytes

abbrev pub zstd_name : Bytes
zstd_name = codes "zstd"

abbrev head_or_empty : List Bytes → Bytes
head_or_empty [] = []
head_or_empty (w ∷ ws) = w

-- A token of the list, up to its parameters.
unfoldable pub is_zstd : Bytes → Bool
is_zstd token = bytes_eq (trim (head_or_empty (split 59 (trim token)))) zstd_name

unfoldable pub any_zstd : List Bytes → Bool
unfolding is_zstd
any_zstd [] = false
any_zstd (token ∷ tokens) = is_zstd token || any_zstd tokens

-- `get(name).and_then(|value| value.to_str().ok())`
unfoldable pub header_text : (Bytes → Option Bytes) → Option Bytes → Option Bytes
header_text to_str none = none
header_text to_str (some value) = to_str value

unfoldable pub accepts_zstd : (Bytes → Option Bytes) → Option Bytes → Bool
unfolding any_zstd
accepts_zstd to_str value = elim (header_text to_str value) [
  | none ↦ false
  | some text ↦ any_zstd (split 44 text)
]

abbrev is_identity : StoredEncoding → Bool
is_identity identity = true
is_identity zstd = false

-- `start`, `end` and `length` of the selected bytes.
pub record Selected : Type 0 where
  pub start : ℕ
  pub end : ℕ
  pub length : ℕ

abbrev optional : Option Bytes → HeaderName → List (HeaderName × Bytes)
optional none name = []
optional (some value) name = (name, value) ∷ []

abbrev when : Bool → HeaderName → Bytes → List (HeaderName × Bytes)
when test name value = if test then (name, value) ∷ [] else []

module _ (hex : Hex) where
  -- The entity tag, in its quotes.
  unfoldable pub entity_tag : ArtifactId → Bytes
  unfolding display_artifact
  entity_tag artifact = 34 ∷ display_artifact hex artifact ++ 34 ∷ []

  -- The answer to a range that starts behind the end.
  unfoldable pub not_satisfiable : ArtifactId → ℕ → Response
  unfolding entity_tag
  not_satisfiable artifact content_len = record {
    status = 416;
    headers =
        (accept_ranges, codes "bytes")
        ∷ (content_range, codes "bytes */" ++ decimal content_len)
        ∷ (etag, entity_tag artifact)
        ∷ [];
    body = empty;
  }

  -- The builder of a full or a partial answer, in the order of its calls.
  unfoldable pub answer_headers :
      ArtifactId → ArtifactMetadata → Bool → Bool → Selected → List (HeaderName × Bytes)
  unfolding entity_tag
  answer_headers artifact m is_partial passthrough chosen =
      (content_length, decimal (if passthrough then m.stored_len else chosen.length))
      ∷ (etag, entity_tag artifact)
      ∷ (when (is_identity m.encoding) accept_ranges (codes "bytes")
          ++ (when (not (is_identity m.encoding)) vary (codes "accept-encoding")
              ++ (when passthrough content_encoding zstd_name
                  ++ (optional m.content_type content_type
                      ++ when is_partial content_range (
                          codes "bytes "
                          ++ (decimal chosen.start
                              ++ 45 ∷ (decimal chosen.end ++ 47 ∷ decimal m.content_len)))))))

  -- The body, and whether it keeps the permit. `seek` is how the seek to the start ends.
  unfoldable pub answer_body :
      ArtifactMetadata → Bool → Bool → Selected → Bool → Option (Body × Bool)
  answer_body m head passthrough chosen seek =
      if head || (chosen.length == 0 && not passthrough)
      then some (empty, false)
      else elim m.encoding [
        | zstd ↦ some (if passthrough then whole_file else decoded chosen.length, true)
        | identity ↦
            if ltb 0 chosen.start && not seek
            then none
            else some (file_bytes chosen.start chosen.length, true)
      ]

  unfoldable pub answer :
      ArtifactId → ArtifactMetadata → Bool → Bool → Bool → Selected → Bool → Response × Bool
  unfolding answer_headers answer_body
  answer artifact m head is_partial passthrough chosen seek =
      elim (answer_body m head passthrough chosen seek) [
        | none ↦ (plain 500, false)
        | some (body, keeps) ↦ (
          record {
            status = if is_partial then 206 else 200;
            headers = answer_headers artifact m is_partial passthrough chosen;
            body = body;
          },
          keeps,
        )
      ]

  module _ (to_str : Bytes → Option Bytes) where
    -- Ranges are for reads of identity bodies.
    unfoldable pub selection : RequestHeaders → ArtifactMetadata → Bool → RangeSelection
    selection headers m head =
        if not head && is_identity m.encoding
        then parse_range to_str headers.range m.content_len
        else full

    -- The response to a located body, and whether its body keeps the permit.
    unfoldable pub located_response :
        ArtifactId → ArtifactMetadata → RequestHeaders → Bool → Bool → Response × Bool
    unfolding selection not_satisfiable answer
    located_response artifact m headers head seek =
        let passthrough =
          not (is_identity m.encoding) && accepts_zstd to_str headers.accept_encoding in
        elim (selection headers m head) [
          | unsatisfiable ↦ (not_satisfiable artifact m.content_len, false)
          | full ↦
              answer artifact m head false passthrough
                record { start = 0; end = m.content_len - 1; length = m.content_len } seek
          | partial start end ↦
              answer artifact m head true passthrough
                record { start = start; end = end; length = end - start + 1 } seek
        ]

    module _ (services : Services) where
      open services use {World}

      -- What a read leaves: the server, the response, and whether its body keeps the permit.
      abbrev pub Served : Type 0
      Served = Server World × Response × Bool

      unfoldable pub found_response :
          Result CacheError (Option ArtifactMetadata)
          → ArtifactId
          → RequestHeaders
          → Bool
          → Bool
          → Response × Bool
      unfolding located_response
      found_response (err error) artifact headers head seek = (plain 500, false)
      found_response (ok none) artifact headers head seek = (plain 404, false)
      found_response (ok (some m)) artifact headers head seek =
          located_response artifact m headers head seek

      unfoldable pub serve_artifact :
          Server World → ChannelId → ArtifactId → RequestHeaders → Bool → Bool → Served
      unfolding found_response acquire_foreground release
      serve_artifact s channel artifact headers head seek =
          let (acquired, admitted) = acquire_foreground s in
          elim admitted [
            | false ↦ (acquired, busy_response, false)
            | true ↦
                let (world, located) = services.locate acquired.world channel artifact in
                let read = record acquired { world = world } in
                let (response, keeps) = found_response located artifact headers head seek in
                (if keeps then read else release read, response, keeps)
          ]
