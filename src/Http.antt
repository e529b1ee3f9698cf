-- ===== src/Http.antt =====
-- src/transport/http/mod.rs: the server's handlers, as functions from what the cache and the
-- channel service answer to the response and the counters.
pub mod Server
pub mod Serve
pub mod Lengths
pub mod Failures
pub mod Data
pub mod BuildCache
pub mod Channels
pub mod Requests
pub mod Range
pub mod Ranges
pub mod Asked
use flywheel.Prelude.{ℕ, Bool, List, [], ◌∷◌, Option}
use flywheel.Bytes.{Bytes}
use flywheel.Storage.Ids.{Lifecycle}

-- `http::header`, as far as the handlers write it.
pub data HeaderName : Type 0 where
  content_length content_type content_range content_encoding accept_ranges : HeaderName
  etag vary retry_after www_authenticate : HeaderName

-- The JSON documents: `ErrorBody`, `ArtifactBinding` and `ChannelView`.
pub data Document : Type 0 where
  error_body : Bytes → Bytes → Document
  artifact_binding : Bytes → Bytes → Document
  channel_view : Bytes → Option Bytes → Bool → ℕ → Lifecycle → Document

-- What a response's body is made from.
pub data Body : Type 0 where
  empty : Body
  json : Document → Body
  -- A file from `start` on, at most `length` bytes of it.
  file_bytes : ℕ → ℕ → Body
  -- The whole stored file.
  whole_file : Body
  -- At most `length` bytes of the decoded file.
  decoded : ℕ → Body

pub record Response : Type 0 where
  pub status : ℕ
  pub headers : List (HeaderName × Bytes)
  pub body : Body

-- `StatusCode::into_response`
abbrev pub plain : ℕ → Response
plain status = record { status = status; headers = []; body = empty }
