-- ===== src/Http/Requests.antt =====
-- src/transport/http/mod.rs: `data_router`, the routes of a channel's data.
use flywheel.Prelude.{ℕ, Bool, true, false, Option, none, some}
use flywheel.Bytes.{Bytes}
use flywheel.Storage.Ids.{ChannelId}
use flywheel.Storage.Errors.{Result, ok, err}
use flywheel.Http.{Response}
use flywheel.Http.Server.{Services, Server}
use flywheel.Http.Serve.{RequestHeaders}
use flywheel.Http.Data.{
  Codecs, Served, put_artifact, get_artifact, put_reference, get_reference, delete_reference,
}
use flywheel.Http.BuildCache.{
  put_http_cache, get_http_cache, put_bazel_ac, get_bazel_ac, put_bazel_cas, get_bazel_cas,
}
use flywheel.Http.Channels.{ChannelContext, from_request_parts}
pub mod Budgets
pub mod Permits
pub mod Shedding

-- A request to one of the routes for artifacts, references and build caches. The routes of the
-- package proxies, which `data_router` registers beside them, are none of these. A read says
-- whether it is HEAD, and how the seek in the file ends.
pub data Route (Upload : Type 0) : Type 0 where
  artifact_put : Bytes → Bytes → Upload → Route Upload
  artifact_get : Bytes → Bytes → Bool → Bool → Route Upload
  reference_put : Bytes → Bytes → Bytes → Route Upload
  reference_get reference_delete : Bytes → Route Upload
  http_put action_put blob_put : Bytes → Upload → Route Upload
  http_get action_get blob_get : Bytes → Bool → Bool → Route Upload

module _ (codecs : Codecs) (services : Services) where
  open services use {World, Upload}

  unfoldable pub data_handler :
      Server World → ChannelId → RequestHeaders → Route Upload → Served codecs services
  unfolding put_artifact get_artifact put_reference get_reference delete_reference
  data_handler s channel headers (artifact_put name digest upload) =
      put_artifact codecs services s channel name digest headers upload
  data_handler s channel headers (artifact_get name digest head seek) =
      get_artifact codecs services s channel name digest headers head seek
  data_handler s channel headers (reference_put reference name digest) =
      put_reference codecs services s channel reference name digest
  data_handler s channel headers (reference_get reference) =
      get_reference codecs services s channel reference
  data_handler s channel headers (reference_delete reference) =
      delete_reference codecs services s channel reference
  data_handler s channel headers (http_put key upload) =
      put_http_cache codecs services s channel key headers upload
  data_handler s channel headers (action_put hash upload) =
      put_bazel_ac codecs services s channel hash headers upload
  data_handler s channel headers (blob_put hash upload) =
      put_bazel_cas codecs services s channel hash headers upload
  data_handler s channel headers (http_get key head seek) =
      get_http_cache codecs services s channel key headers head seek
  data_handler s channel headers (action_get hash head seek) =
      get_bazel_ac codecs services s channel hash headers head seek
  data_handler s channel headers (blob_get hash head seek) =
      get_bazel_cas codecs services s channel hash headers head seek

  -- The channel is resolved and authorized before the handler runs. This is `data_router` without
  -- the routes of the package proxies.
  unfoldable pub data_router :
      Server World → Option Bytes → RequestHeaders → Route Upload → Served codecs services
  unfolding data_handler from_request_parts
  data_router s channel headers route =
      let (after, context) = from_request_parts codecs services s channel headers.authorization in
      elim context [
        | err response ↦ (after, response, false)
        | ok c ↦ data_handler after c.channel headers route
      ]
