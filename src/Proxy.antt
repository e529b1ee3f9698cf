-- ===== src/Proxy.antt =====
-- src/proxy/mod.rs: the read-through proxies of the package protocols. URLs, HTML and the numbers
-- of an Accept header are read by libraries, which are parameters.
pub mod Negotiation
pub mod Offers
pub mod Origins
pub mod Upstream
pub mod Hops
pub mod References
pub mod Rewrite
pub mod Tarballs
pub mod Store
pub mod Fetch
pub mod Contacts
pub mod Flights
pub mod Sharing
use flywheel.Prelude.{Bool, true, false, Option, none, some, List, []}
use flywheel.Bytes.{Bytes, codes}

pub data Protocol : Type 0 where
  go python npm cargo_index cargo_crate : Protocol

-- `Transform`
pub data Transform : Type 0 where
  untouched : Transform
  python_html python_json : Bytes → Bool → Transform
  npm_metadata : Bytes → Bool → Transform

unfoldable pub upstream_accept : Transform → Option Bytes
upstream_accept untouched = none
upstream_accept (python_html _ _) = some (codes "application/vnd.pypi.simple.v1+html")
upstream_accept (python_json _ _) = some (codes "application/vnd.pypi.simple.v1+json")
upstream_accept (npm_metadata _ true) = some (codes "application/vnd.npm.install-v1+json")
upstream_accept (npm_metadata _ false) = some (codes "application/json")

unfoldable pub cache_variant : Transform → Bytes
cache_variant untouched = []
cache_variant (python_html _ _) = codes "html"
cache_variant (python_json _ _) = codes "json"
cache_variant (npm_metadata _ true) = codes "install-v1"
cache_variant (npm_metadata _ false) = codes "full"
