-- ===== src/Proxy/Store.antt =====
-- src/proxy/mod.rs: the cache as the proxies call it, and what they answer.
use flywheel.Prelude.{ℕ, Bool, true, false, Option, none, length}
use flywheel.Bytes.{Bytes}
use flywheel.Storage.Ids.{
  ChannelId, ArtifactId, ArtifactMetadata, identity, ReferenceRecord, best_effort,
}
use flywheel.Storage.Errors.{Result}
use flywheel.Cache.Publication.{CacheError, Publication}
use flywheel.Cache.Requests.{content_addressed, PublishRequest}
use flywheel.Proxy.{Transform, untouched}

-- The cache as the proxies call it; `World` is all that it changes. A body that is located comes
-- with its bytes, or with how reading it fails.
pub record Store : Type 1 where
  pub World : Type 0
  pub resolve_reference :
      World → ChannelId → Bytes → World × Result CacheError (Option ReferenceRecord)
  pub locate :
      World
      → ChannelId
      → ArtifactId
      → World × Result CacheError (Option (ArtifactMetadata × Option Bytes))
  -- `none` where admission is refused.
  pub publish_or_reject :
      World → PublishRequest → Bytes → World × Result CacheError (Option Publication)
  pub publish : World → PublishRequest → Bytes → World × Result CacheError Publication
  pub bind_with_validators :
      World
      → ChannelId
      → Bytes
      → ArtifactId
      → Option Bytes
      → Option Bytes
      → World × Result {0} CacheError Unit

pub data ProxyOutcome : Type 0 where
  artifact_found : ArtifactId → ProxyOutcome
  cached_metadata : Bytes → Option Bytes → ProxyOutcome
  upstream upstream_stream : ℕ → Bytes → Option Bytes → ProxyOutcome

abbrev pub is_untouched : Transform → Bool
is_untouched untouched = true
is_untouched _ = false

-- `MetadataPublication`
pub record MetadataPublication : Type 0 where
  pub reference : Bytes
  pub content_type : Option Bytes
  pub etag : Option Bytes
  pub last_modified : Option Bytes
  pub raw : Bytes
  pub rewritten : Bytes

-- A publication of the proxies: content-addressed, in the background, as it is.
abbrev pub proxy_publication : ChannelId → Option Bytes → Option ℕ → PublishRequest
proxy_publication channel content_type length = record {
  channel = channel;
  target = content_addressed none;
  content_type = content_type;
  content_length = length;
  durability = best_effort;
  encoding = identity;
}
