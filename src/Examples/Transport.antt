-- ===== src/Examples/Transport.antt =====
-- HTTP requests to a server of a small cache, and byte ranges.
use flywheel.Prelude.{
  ℕ, ◌≡◌, ◌+◌, ◌-◌, ◌↔◌, refl, ap, arith, inl, true, false, Option, none, some, [], ◌∷◌, ◌++◌, map,
  length, length-map, replicate, ◌==◌, if◌then◌else◌,
}
use flywheel.Bytes.{Bytes, codes}
use flywheel.Storage.Ids.{ArtifactId, ArtifactMetadata, identity}
use flywheel.Storage.Errors.{ok, err}
use flywheel.Channels.{not_found}
use flywheel.Cache.Publication.{is_existing}
use flywheel.Identity.{Hex, is_uppercase, any_uppercase}
use flywheel.Http.Server.{Services, Metrics, Server}
use flywheel.Http.Serve.{RequestHeaders, located_response}
use flywheel.Http.Data.{Codecs}
use flywheel.Http.Requests.{Route, artifact_get, reference_get, data_router}
use flywheel.Http.Range.{parse_range, bytes_unit}
use flywheel.Http.Asked.{ByteRange, closed, written, Asked, Covers, parse_range-Covers}
use flywheel.Http.Lengths.{Honest, located_response-Honest}
use flywheel.Http.Requests.Permits.{Kept, data_router-Kept}
use flywheel.Http.Requests.Shedding.{Turned, data_router-Turned}

-- A code that shifts bytes out of the uppercase letters.
abbrev pub shift : Bytes → Bytes
shift = map λ c. c + 97

abbrev pub unshift : Bytes → Bytes
unshift = map λ c. c - 97

abbrev pub unshift_digest : Bytes → Option Bytes
unshift_digest v = if length v == 32 then some (unshift v) else none

pub shift-lowercase : (b : Bytes) → any_uppercase (shift b) ≡ false
unfolding any_uppercase
shift-lowercase [] = refl
shift-lowercase (c ∷ cs) =
    let low : is_uppercase (c + 97) ≡ false = ground arith in rw low (shift-lowercase cs)

pub unshift-shift : (b : Bytes) → unshift (shift b) ≡ b
unshift-shift [] = refl
unshift-shift (c ∷ cs) = let e : c + 97 - 97 ≡ c = omega arith in rw (e, unshift-shift cs) refl

pub unshift_digest-shift : (b : Bytes) → length b ≡ 32 → unshift_digest (shift b) ≡ some b
unshift_digest-shift b h =
    let long : (length (shift b) == 32) ≡ true = ground (arith, length-map (λ c. c + 97) b) in
    rw (long, unshift-shift b) refl

pub length-unshift_digest : (v b : Bytes) → unshift_digest v ≡ some b → length b ≡ 32
length-unshift_digest v b e = ground (arith, length-map (λ c. c - 97) v)

abbrev pub example_hex : Hex
example_hex = record {
  encode = shift;
  decode = unshift_digest;
  decode_all = λ v. some (unshift v);
  decode_all-encode = λ b. ap some (unshift-shift b);
  encode-lowercase = shift-lowercase;
  decode-encode = unshift_digest-shift;
  length-decode = length-unshift_digest;
}

abbrev asked : ByteRange
asked = closed 2 5

parse_range-Covers_example :
    Covers (parse_range some (some (bytes_unit ++ written asked)) 4) 3 ↔ Asked 4 asked 3
parse_range-Covers_example =
    parse_range-Covers some (bytes_unit ++ written asked) asked 4 3 refl (omega arith, omega arith)
      (omega arith)

abbrev stored_body : ArtifactMetadata
stored_body = record {
  content_len = 4;
  content_type = none;
  created_at = 0;
  eligible_at = 9;
  stored_len = 4;
  encoding = identity;
}

abbrev artifact : ArtifactId
artifact = record { digest = 7 ∷ [] }

abbrev headers : RequestHeaders
headers = record {
  content_length = none;
  content_type = none;
  range = some (codes "bytes=2-");
  accept_encoding = none;
  authorization = none;
}

located_response-Honest_example :
    Honest stored_body (located_response example_hex some artifact stored_body headers false true).0
located_response-Honest_example =
    located_response-Honest example_hex artifact some stored_body headers true (λ e. refl)

abbrev codecs : Codecs
codecs = record {
  hex = example_hex;
  to_str = some;
  decode = some;
  parse_ulid = λ text. none;
  ulid_text = λ c. [];
}

-- A cache that holds one body, under every identity.
abbrev services : Services
services = record {
  World = ℕ;
  Upload = Bytes;
  publish = λ w request upload. (w + 1, ok record { artifact = artifact; outcome = is_existing });
  locate = λ w c a. (w, ok (some stored_body));
  resolve_reference = λ w c reference. ok none;
  bind_reference = λ w c reference a. (w, ok tt);
  delete_reference = λ w c reference. (w, ok tt);
  authorize = λ w c credential. err not_found;
  authorize_with_lease = λ w c credential. (w, err not_found);
  update_expiry = λ w r expiry. (w, ok r);
  register = λ w protected expiry. (w, err not_found);
  delete_channel = λ w c credential. (w, err not_found);
}

abbrev metrics : ℕ → Metrics
metrics held = record {
  foreground_in_flight = held;
  foreground_rejections = 0;
  authorization_denials = 0;
  build_cache_bypasses = 0;
  raw_pressure_errors = 0;
}

abbrev busy_server : Server ℕ
busy_server = record { world = 0; foreground = 0; metrics = metrics 2 }

abbrev free_server : Server ℕ
free_server = record { world = 0; foreground = 1; metrics = metrics 1 }

abbrev read_route : Route Bytes
read_route = artifact_get (codes "sha256") (shift (replicate 32 1)) false true

data_router-Kept_example :
    Kept codecs services 2 1 (data_router codecs services free_server none headers read_route)
data_router-Kept_example =
    data_router-Kept codecs services 2 1 free_server none headers read_route (refl, refl)

data_router-Turned_example :
    Turned codecs services busy_server
      (data_router codecs services busy_server none headers (reference_get (codes "main")))
data_router-Turned_example =
    data_router-Turned codecs services busy_server none headers (reference_get (codes "main"))
      (inl refl)
