-- ===== src/Examples/Proxies.antt =====
-- A package proxy over a small cache and an upstream that redirects once.
use mathlib.Core.List.{Permᴰ}
use flywheel.Prelude.{
  ℕ, ◌≡◌, ◌+◌, ◌↔◌, refl, arith, Option, none, some, [], ◌∷◌, ◌++◌, length, count, take,
  if◌then◌else◌,
}
use flywheel.Bytes.{Bytes, codes, bytes_eq}
use flywheel.Text.{contains, split, split_once, trim, trim_start, trim_end, grow}
use flywheel.Discovery.{ascii_lowercase}
use flywheel.Storage.Ids.{ArtifactId, default_channel}
use flywheel.Storage.Errors.{ok, err}
use flywheel.Cache.Publication.{is_existing}
use flywheel.Proxy.{npm, untouched}
use flywheel.Proxy.Origins.{
  Urls, AllowedOrigins, UpstreamBases, invalid_encoded_url, check_origin, has_origin, for_protocol,
  decode_url,
}
use flywheel.Proxy.Upstream.{Reply, Sent, answered, Request, Wire, send_validated}
use flywheel.Proxy.Store.{Store}
use flywheel.Proxy.Fetch.{Proxy, fetch, fetch_encoded_url}
use flywheel.Proxy.Hops.{Fetched, send_validated-Fetched}
use flywheel.Proxy.Contacts.{Contacted, fetch-Contacted}
use flywheel.Proxy.Rewrite.{string, rewrite_link}
use flywheel.Proxy.Tarballs.{is_plain, decode_url-rewrite_link}
use flywheel.Proxy.Negotiation.{
  Quality, number, negotiate_python, negotiate_npm, media_range, find_quality,
}
use flywheel.Proxy.Offers.{negotiate-perm}
use flywheel.Proxy.Flights.{
  Flights, start, arrive, drop_flight, Reached, begun, arrived, landed, remove_if_last,
  strong_count,
}
use flywheel.Proxy.Sharing.{Shared, Reached-Shared, drop_flight-entry_iff}

-- URLs are texts: the first letter is the origin, and an `@` ends the user info.
abbrev urls : Urls
urls = record {
  Url = Bytes;
  Origin = Bytes;
  origin = take 1;
  same_origin = bytes_eq;
  parse = some;
  join = λ base text. some text;
  as_str = λ url. url;
  scheme = λ url. codes "https";
  username = λ url. if contains 64 url then take 1 url else [];
  password = λ url. none;
  path = λ url. url;
  set_path = λ url path. path;
  fragment = λ url. none;
  without_fragment = λ url. url;
}

abbrev allowed : AllowedOrigins urls
allowed = record {
  of_go = [];
  of_python = [];
  of_npm = codes "r" ∷ [];
  of_cargo_index = [];
  of_cargo_crate = [];
}

abbrev bases : UpstreamBases urls
bases = record {
  go_base = codes "g";
  python_base = codes "p";
  npm_base = codes "r";
  cargo_index_base = codes "c";
  cargo_crate_base = codes "c";
}

abbrev reply : ℕ → Option Bytes → Reply
reply status location = record {
  status = status;
  location = location;
  content_type = none;
  etag = none;
  last_modified = none;
  content_length = none;
  body = codes "body";
}

-- The first request is redirected.
abbrev network : Wire urls → Request urls → Sent
network [] request = answered (reply 302 (some (codes "r/mirror")))
network (_ ∷ _) request = answered (reply 200 none)

abbrev url : Bytes
url = codes "r/package"

send_validated-Fetched_example :
    Fetched urls network allowed npm [] 6 (send_validated urls network allowed npm [] url none none)
unfolding check_origin has_origin for_protocol bytes_eq
send_validated-Fetched_example =
    send_validated-Fetched urls network allowed npm [] url none none refl tt

abbrev artifact : ArtifactId
artifact = record { digest = 7 ∷ [] }

abbrev store : Store
store = record {
  World = ℕ;
  resolve_reference = λ w c reference. (w, ok none);
  locate = λ w c a. (w, ok none);
  publish_or_reject =
      λ w request body. (w + 1, ok (some record { artifact = artifact; outcome = is_existing }));
  publish = λ w request body. (w + 1, ok record { artifact = artifact; outcome = is_existing });
  bind_with_validators = λ w c reference a etag modified. (w, ok tt);
}

abbrev plain : Bytes → Bytes
plain b = b

abbrev proxy : Proxy urls store allowed network plain plain (λ t u b. ok b) 60
proxy = record { world = 0; wire = []; permits = 1 }

fetch-Contacted_example :
    Contacted urls store allowed network plain plain
      (λ t u b. ok b)
      60
      npm
      proxy
      (fetch urls store allowed network plain plain
        (λ t u b. ok b)
        60
        npm
        bases
        proxy
        default_channel
        0
        0
        url
        untouched).0
    × Contacted urls store allowed network plain plain
        (λ t u b. ok b)
        60
        npm
        proxy
        (fetch_encoded_url urls store allowed network plain plain
          (λ t u b. ok b)
          60
          npm
          some
          proxy
          default_channel
          0
          0
          url
          []).0
fetch-Contacted_example =
    fetch-Contacted urls store allowed network plain plain (λ t u b. ok b) 60 npm some bases proxy
      default_channel 0 0 url url [] untouched tt

-- A tarball's URL with user info.
abbrev private_url : Bytes
private_url = codes "r@package"

decode_url-rewrite_link_example :
    (rewrite_link urls plain allowed (codes "r") [] (string private_url)
      ≡ string (codes "/proxy/npm/-/tarball/" ++ private_url))
    × (decode_url urls allowed some npm private_url [] ≡ (
        if is_plain urls plain allowed (codes "r") [] private_url
        then ok private_url
        else err invalid_encoded_url))
unfolding check_origin has_origin for_protocol bytes_eq
decode_url-rewrite_link_example =
    decode_url-rewrite_link urls plain allowed (codes "r") [] some private_url private_url refl refl
      refl refl

abbrev parse_quality : Bytes → Option Quality
parse_quality text = some (number (length text))

abbrev accept : Bytes
accept = codes "text/html,*/*;q=1"

abbrev accept' : Bytes
accept' = codes "*/*;q=1,text/html"

negotiate-perm_example :
    (negotiate_python parse_quality (number 1) (some accept)
      ≡ negotiate_python parse_quality (number 1) (some accept'))
    × (negotiate_npm parse_quality (number 1) (some accept)
        ≡ negotiate_npm parse_quality (number 1) (some accept'))
unfolding split trim trim_start trim_end ascii_lowercase media_range find_quality split_once grow
    bytes_eq
negotiate-perm_example =
    negotiate-perm parse_quality (number 1) accept accept' (Permᴰ.swap refl refl) (tt, (tt, tt))
      refl refl

-- Two requests share a lock; one has dropped its flight, and not yet its clone.
abbrev leaving : Flights
leaving = drop_flight (arrive (arrive start)) 0

leaving-Reached : Reached leaving
unfolding arrive
leaving-Reached = landed 0 (omega arith) (arrived (arrived begun))

Reached-Shared_example : Shared leaving.entry leaving.active
Reached-Shared_example = Reached-Shared leaving-Reached

drop_flight-entry_iff_example :
    ((drop_flight leaving 0).entry ≡ none)
    ↔ ((length leaving.active ≡ 1) × (count 0 leaving.leaving ≡ 0))
unfolding arrive drop_flight remove_if_last strong_count
drop_flight-entry_iff_example = drop_flight-entry_iff 0 leaving-Reached (omega arith)
