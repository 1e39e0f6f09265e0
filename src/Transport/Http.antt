-- ===== src/Transport/Http.antt =====
-- src/services/blockchain/transports/http: the endpoint manager of endpoint_manager.rs and the
-- constructor of transport.rs. A request is a parameter, with its attempt's outcome; metrics and
-- logging are left out, and a message keeps its variant and what it names.
pub mod Rotation
pub mod Requests
pub mod Start
use openzeppelin_monitor.Prelude.{
  ℕ, zero, suc, ◌≡◌, Bool, true, false, not, ◌&&◌, List, [], ◌∷◌, ◌++◌, Option, none, some, String,
  str_eq, ltb, leb, ◌==◌, if◌then◌else◌, filter, find, map, contains,
}
use openzeppelin_monitor.Prelude.Result.{Result, ok, err}
use openzeppelin_monitor.Models.Network.{Network, RpcUrl, as_str, secret_eq}
use openzeppelin_monitor.Transport.{RotatingTransport, Endpoints, candidates, sort_by_weight}

-- The variant `UrlRotation` of `TransportError`, which is also the source of some of the others.
pub data RotationError : Type 0 where
  url_rotation : String → RotationError

pub data TransportError : Type 0 where
  http : (status_code : ℕ) → (url body : String) → Option RotationError → TransportError
  network_failed : String → Option RotationError → TransportError
  response_parse : TransportError
  request_serialization : TransportError

pub record Response (V : Type 0) : Type 0 where
  pub status : ℕ
  pub json : Option V
  pub text : String

-- `SingleRequestAttemptOutcome`.
pub data AttemptOutcome (V : Type 0) : Type 0 where
  success : Response V → AttemptOutcome V
  network_error : String → AttemptOutcome V
  serialization_error : AttemptOutcome V

module _ {W : Type 0} (transport : RotatingTransport W) where
  -- The shared state after a successful rotation.
  abbrev pub rotated : String → Endpoints → Endpoints
  rotated new_url m = record {
    active_url = new_url;
    fallback_urls = filter (λ u. not (str_eq u new_url)) m.fallback_urls ++ m.active_url ∷ [];
  }

  abbrev pub switch :
      String
      → Endpoints
      → Result String (Unit {0}) × W
      → Result RotationError String × (Endpoints × W)
  switch new_url m (ok _, w) = (ok new_url, (rotated new_url m, w))
  switch new_url m (err _, w) =
      (err (url_rotation "Failed to update transport client with new URL"), (m, w))

  abbrev pub connect :
      String
      → Endpoints
      → Result String (Unit {0}) × W
      → Result RotationError String × (Endpoints × W)
  connect new_url m (ok _, w) = switch new_url m (transport.update_client new_url w)
  connect new_url m (err _, w) = (err (url_rotation "Failed to connect to new URL"), (m, w))

  abbrev pub choose : Endpoints → W → Option String → Result RotationError String × (Endpoints × W)
  choose m w none = (err (url_rotation "No fallback URLs available"), (m, w))
  choose m w (some new_url) = connect new_url m (transport.try_connect new_url w)

  unfoldable pub try_rotate_url : Endpoints → W → Result RotationError String × (Endpoints × W)
  try_rotate_url m w = choose m w (find (λ url. not (str_eq url m.active_url)) m.fallback_urls)

-- `StatusCode::is_success`.
abbrev pub is_success : ℕ → Bool
is_success status = leb 200 status && ltb status 300

abbrev pub rotate_on_error_codes : List ℕ
rotate_on_error_codes = 429 ∷ []

-- What the loop does about an outcome: it returns, or it rotates and returns this error if that
-- fails.
pub data Verdict (V : Type 0) : Type 0 where
  return : Result TransportError V → Verdict V
  rotate_or : (RotationError → TransportError) → Verdict V

abbrev pub parsed : {V : Type 0} → Option V → Result TransportError V
parsed none = err response_parse
parsed (some v) = ok v

unfoldable pub verdict : {V : Type 0} → String → AttemptOutcome V → Verdict V
verdict url (success r) =
    if is_success r.status
    then return (parsed r.json)
    else if contains rotate_on_error_codes r.status
    then rotate_or (λ e. http r.status url r.text (some e))
    else return (err (http r.status url r.text none))
verdict url (network_error e) = rotate_or (λ rotation. network_failed e (some rotation))
verdict url serialization_error = return (err request_serialization)

module _ {W V : Type 0} (transport : RotatingTransport W)
    (try_request_on_url : String → W → AttemptOutcome V × W) where
  abbrev pub Sent : Type 0
  Sent = Option (Result TransportError V × (Endpoints × W))

  -- After a rotation the loop goes on with `k`; when it failed, its error is the source of the one
  -- that is returned.
  abbrev pub after_rotation :
      (Endpoints → W → Sent)
      → (RotationError → TransportError)
      → Result RotationError String × (Endpoints × W)
      → Sent
  after_rotation k wrap (ok new_url, (m, w)) = k m w
  after_rotation k wrap (err e, mw) = some (err (wrap e), mw)

  abbrev pub round : (Endpoints → W → Sent) → Endpoints → W → Verdict V → Sent
  round k m w (return r) = some (r, (m, w))
  round k m w (rotate_or wrap) = after_rotation k wrap (try_rotate_url transport m w)

  -- The loop of `send_raw_request`; none is out of fuel. The loop itself has no bound.
  unfoldable pub send_raw_request : ℕ → Endpoints → W → Sent
  send_raw_request zero m w = none
  send_raw_request (suc fuel) m w =
      let attempt = try_request_on_url m.active_url w in
      round (send_raw_request fuel) m attempt.1 (verdict m.active_url attempt.0)

pub data NewError : Type 0 where
  test_payload all_failed : NewError

-- `HttpTransportClient::new`: `probe` posts the test request to a URL that parses, and its answer is
-- the status, if there is one; `payload_parses` says whether the test payload is JSON.
module _ {W : Type 0} (url_parses : String → Bool) (payload_parses : Bool)
    (probe : String → W → Option ℕ × W) where
  abbrev pub fallbacks_of : RpcUrl → List RpcUrl → List String
  fallbacks_of rpc_url rpc_urls =
      map (λ (u : RpcUrl). as_str u.url) (filter (λ u. not (secret_eq u.url rpc_url.url)) rpc_urls)

  abbrev pub answered : Option ℕ → Bool
  answered none = false
  answered (some status) = is_success status

  -- The loop over the sorted URLs: the first one that answers becomes the active one.
  unfoldable pub connect_first : List RpcUrl → List RpcUrl → W → Result NewError Endpoints × W
  connect_first rpc_urls [] w = (err all_failed, w)
  connect_first rpc_urls (u ∷ us) w =
      let probed = probe (as_str u.url) w in
      let skipped = connect_first rpc_urls us w in
      let failed = connect_first rpc_urls us probed.1 in
      if not (url_parses (as_str u.url))
      then skipped
      else if not payload_parses
      then (err test_payload, w)
      else if answered probed.0
      then (
        ok (record { active_url = as_str u.url; fallback_urls = fallbacks_of u rpc_urls }),
        probed.1,
      )
      else failed

  unfoldable pub new : Network → W → Result NewError Endpoints × W
  unfolding connect_first sort_by_weight
  new network w =
      let rpc_urls = sort_by_weight (candidates "rpc" network.rpc_urls) in
      connect_first rpc_urls rpc_urls w
