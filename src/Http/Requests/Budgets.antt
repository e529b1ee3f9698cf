-- ===== src/Http/Requests/Budgets.antt =====
-- src/transport/http/mod.rs: the steps of a handler, on the foreground budget.
use flywheel.Prelude.{ℕ, ◌+◌, ◌≡◌, subst, true, false, if◌then◌else◌, arith, Bool-cases, inl, inr}
use flywheel.LocalFiles.Stage.{io, stream, task, too_large, out_of_space, digest_mismatch}
use flywheel.Cache.Publication.{
  CacheError, local, metadata, missing_channel, channel_deleting, space_unavailable,
}
use flywheel.Channels.{ChannelError}
use flywheel.Http.{Response}
use flywheel.Http.Server.{
  Server, Budget, acquire_foreground, with_permit, acquire_foreground-Budget, release-Budget,
}
use flywheel.Http.Failures.{channel_denied, cache_write_failure, cache_write_failure_with_bypass}

module _ {World : Type 0} (limit held : ℕ) where
  -- A step that returns the permits that it takes.
  abbrev pub Steady : (Server World → Server World × Response) → Type 0
  Steady work = (s : Server World) → Budget limit held s → Budget limit held (work s).0

  -- A failed write moves other counters.
  pub cache_write_failure-Budget :
      (s : Server World) (error : CacheError)
      → Budget limit held s
      → Budget limit held (cache_write_failure s error).0
  unfolding cache_write_failure
  cache_write_failure-Budget s (local (io _)) b = b
  cache_write_failure-Budget s (local (stream _)) b = b
  cache_write_failure-Budget s (local (task _)) b = b
  cache_write_failure-Budget s (local too_large) b = b
  cache_write_failure-Budget s (local out_of_space) b = b
  cache_write_failure-Budget s (local digest_mismatch) b = b
  cache_write_failure-Budget s (metadata _) b = b
  cache_write_failure-Budget s missing_channel b = b
  cache_write_failure-Budget s channel_deleting b = b
  cache_write_failure-Budget s space_unavailable b = b

  pub bypass-Budget :
      (s : Server World) (error : CacheError)
      → Budget limit held s
      → Budget limit held (cache_write_failure_with_bypass s error).0
  unfolding cache_write_failure_with_bypass cache_write_failure
  bypass-Budget s (local (io _)) b = b
  bypass-Budget s (local (stream _)) b = b
  bypass-Budget s (local (task _)) b = b
  bypass-Budget s (local too_large) b = b
  bypass-Budget s (local out_of_space) b = b
  bypass-Budget s (local digest_mismatch) b = b
  bypass-Budget s (metadata _) b = b
  bypass-Budget s missing_channel b = b
  bypass-Budget s channel_deleting b = b
  bypass-Budget s space_unavailable b = b

  pub channel_denied-Budget :
      (s : Server World) (error : ChannelError)
      → Budget limit held s
      → Budget limit held (channel_denied s error).0
  unfolding channel_denied
  channel_denied-Budget s error b = ground arith

  -- Where no permit is free, the level stays; otherwise one more is out.
  pub acquired-Budget :
      (s : Server World)
      → Budget limit held s
      → (acquire_foreground s).1 ≡ true
      → Budget limit (held + 1) (acquire_foreground s).0
  acquired-Budget s b h =
      subst (λ t. Budget limit (if t then held + 1 else held) (acquire_foreground s).0) h
        (acquire_foreground-Budget limit held s b)

  pub shed-Budget :
      (s : Server World)
      → Budget limit held s
      → (acquire_foreground s).1 ≡ false
      → Budget limit held (acquire_foreground s).0
  shed-Budget s b h =
      subst (λ t. Budget limit (if t then held + 1 else held) (acquire_foreground s).0) h
        (acquire_foreground-Budget limit held s b)

module _ {World : Type 0} (limit held : ℕ) where
  pub with_permit-Steady :
      (work : Server World → Server World × Response)
      → Steady limit (held + 1) work
      → Steady limit held (with_permit work)
  unfolding with_permit
  with_permit-Steady work keep s b = elim (Bool-cases (acquire_foreground s).1) [
    | inl admitted ↦
        rw (admitted, with_permit)
          (release-Budget limit held (work (acquire_foreground s).0).0
            (keep (acquire_foreground s).0 (acquired-Budget limit held s b admitted)))
    | inr full ↦ rw (full, with_permit) (shed-Budget limit held s b full)
  ]
