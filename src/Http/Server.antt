-- ===== src/Http/Server.antt =====
-- src/transport/http/mod.rs: the state that the handlers share, and the foreground budget.
use flywheel.Prelude.{
  ℕ, ◌+◌, ◌-◌, ◌≡◌, Bool, true, false, Option, [], ◌∷◌, ltb, if◌then◌else◌, arith, Bool-cases, inl,
  inr,
}
use flywheel.Bytes.{Bytes, codes}
use flywheel.Storage.Ids.{ChannelId, ArtifactId, ArtifactMetadata, ReferenceRecord, ChannelRecord}
use flywheel.Storage.Errors.{Result}
use flywheel.Cache.Publication.{CacheError, Publication}
use flywheel.Cache.Requests.{PublishRequest}
use flywheel.Channels.{ChannelError}
use flywheel.Http.{Response, retry_after, empty}

-- The cache and channel services as the handlers call them. `World` is all that they change.
pub record Services : Type 1 where
  pub World : Type 0
  pub Upload : Type 0
  pub publish : World → PublishRequest → Upload → World × Result CacheError Publication
  pub locate : World → ChannelId → ArtifactId → World × Result CacheError (Option ArtifactMetadata)
  pub resolve_reference : World → ChannelId → Bytes → Result CacheError (Option ReferenceRecord)
  pub bind_reference : World → ChannelId → Bytes → ArtifactId → World × Result {0} CacheError Unit
  pub delete_reference : World → ChannelId → Bytes → World × Result {0} CacheError Unit
  pub authorize : World → ChannelId → Option Bytes → Result ChannelError ChannelRecord
  pub authorize_with_lease :
      World → ChannelId → Option Bytes → World × Result ChannelError ChannelRecord
  pub update_expiry : World → ChannelRecord → ℕ → World × Result ChannelError ChannelRecord
  pub register : World → Bool → ℕ → World × Result ChannelError (ChannelRecord × Option Bytes)
  pub delete_channel : World → ChannelId → Option Bytes → World × Result {0} ChannelError Unit

-- The counters that the handlers move.
pub record Metrics : Type 0 where
  pub foreground_in_flight : ℕ
  pub foreground_rejections : ℕ
  pub authorization_denials : ℕ
  pub build_cache_bypasses : ℕ
  pub raw_pressure_errors : ℕ

-- `AppState`, as far as it changes: the semaphore's free permits among it.
pub record Server (World : Type 0) : Type 0 where
  pub world : World
  pub foreground : ℕ
  pub metrics : Metrics

abbrev pub retry_soon : ℕ → Response
retry_soon status = record {
  status = status;
  headers = (retry_after, codes "1") ∷ [];
  body = empty;
}

-- `busy_response`
abbrev pub busy_response : Response
busy_response = retry_soon 429

-- `insufficient_storage`
abbrev pub insufficient_storage : Response
insufficient_storage = retry_soon 507

module _ {World : Type 0} where
  -- `acquire_foreground`: whether a permit was free.
  unfoldable pub acquire_foreground : Server World → Server World × Bool
  acquire_foreground s = elim (ltb 0 s.foreground) [
    | true ↦ (
      record s {
        foreground = s.foreground - 1;
        metrics = record s.metrics { foreground_in_flight = s.metrics.foreground_in_flight + 1 };
      },
      true,
    )
    | false ↦ (
      record s {
        metrics = record s.metrics { foreground_rejections = s.metrics.foreground_rejections + 1 };
      },
      false,
    )
  ]

  -- A permit dropped: the guard's `drop`, then the semaphore's.
  unfoldable pub release : Server World → Server World
  release s = record s {
    foreground = s.foreground + 1;
    metrics = record s.metrics { foreground_in_flight = s.metrics.foreground_in_flight - 1 };
  }

  -- The work of a handler under a permit that it drops at its end.
  unfoldable pub with_permit :
      (Server World → Server World × Response) → Server World → Server World × Response
  unfolding acquire_foreground release
  with_permit work s =
      let (acquired, admitted) = acquire_foreground s in
      elim admitted [
        | false ↦ (acquired, busy_response)
        | true ↦ (let (done, response) = work acquired in (release done, response))
      ]

  -- `held` of `limit` permits are out, and the gauge says so.
  abbrev pub Budget : ℕ → ℕ → Server World → Type 0
  Budget limit held s = (s.foreground + held ≡ limit) × (s.metrics.foreground_in_flight ≡ held)

  pub acquire_foreground-Budget :
      (limit held : ℕ) (s : Server World)
      → Budget limit held s
      → Budget limit (if (acquire_foreground s).1 then held + 1 else held) (acquire_foreground s).0
  unfolding acquire_foreground
  acquire_foreground-Budget limit held s b = elim (Bool-cases (ltb 0 s.foreground)) [
    | inl free ↦ rw (free, acquire_foreground) (ground arith)
    | inr full ↦ rw (full, acquire_foreground) (ground arith)
  ]

  pub release-Budget :
      (limit held : ℕ) (s : Server World)
      → Budget limit (held + 1) s
      → Budget limit held (release s)
  unfolding release
  release-Budget limit held s b = (omega arith, omega arith)
