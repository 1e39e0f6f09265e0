-- ===== src/Transport/Ws.antt =====
-- src/services/blockchain/transports/ws: the endpoint manager of endpoint_manager.rs and the choice of
-- the first endpoint in transport.rs. A connection that runs into the timeout is one that fails; the
-- pause between attempts and logging are left out.
pub mod Rotation
pub mod Start
use openzeppelin_monitor.Prelude.{
  ℕ, zero, suc, ◌-◌, ◌≡◌, Bool, true, false, not, ◌&&◌, List, [], ◌∷◌, ◌++◌, Option, none, some,
  String, str_eq, ltb, leb, ◌==◌, if◌then◌else◌, is_empty,
}
use openzeppelin_monitor.Prelude.Result.{Result, ok, err}
use openzeppelin_monitor.Models.Network.{Network, RpcUrl, as_str}
use openzeppelin_monitor.Transport.{RotatingTransport, Endpoints, candidates, sort_by_weight}

pub data RotateError : Type 0 where
  no_fallback failed_to_reconnect : RotateError
  update_failed : String → RotateError

-- The first URL other than the active one, and the list without it.
unfoldable pub take_other : String → List String → Option (String × List String)
take_other active [] = none
take_other active (u ∷ us) = elim (str_eq u active) [
  | false ↦ some (u, us)
  | true ↦ elim (take_other active us) [ none ↦ none | some found ↦ some (found.0, u ∷ found.1) ]
]

module _ {W : Type 0} (transport : RotatingTransport W) where
  -- After a connection: the chosen URL is in neither place if the client cannot be updated.
  abbrev pub switch :
      String
      → List String
      → Endpoints
      → Result String (Unit {0}) × W
      → Result RotateError (Unit {0}) × (Endpoints × W)
  switch new_url rest m (ok _, w) =
      (ok tt, (record { active_url = new_url; fallback_urls = rest ++ m.active_url ∷ [] }, w))
  switch new_url rest m (err e, w) = (err (update_failed e), (record m { fallback_urls = rest }, w))

  abbrev pub Rotated : Type 0
  Rotated = Result RotateError (Unit {0}) × (Endpoints × W)

  -- After a failed connection the chosen URL goes to the end and the loop goes on with `k`.
  abbrev pub after_connect :
      (Endpoints → W → Rotated)
      → String
      → List String
      → Endpoints
      → Result String (Unit {0}) × W
      → Rotated
  after_connect k new_url rest m (ok _, w) =
      switch new_url rest m (transport.update_client new_url w)
  after_connect k new_url rest m (err e, w) =
      k (record m { fallback_urls = rest ++ new_url ∷ [] }) w

  abbrev pub attempt :
      (Endpoints → W → Rotated) → Endpoints → W → Option (String × List String) → Rotated
  attempt k m w none = (err no_fallback, (m, w))
  attempt k m w (some (new_url, rest)) =
      after_connect k new_url rest m (transport.try_connect new_url w)

  -- The loop, with the attempts that are left.
  unfoldable pub rotate_url : ℕ → Endpoints → W → Rotated
  unfolding take_other
  rotate_url zero m w = (err failed_to_reconnect, (m, w))
  rotate_url (suc attempts) m w =
      attempt (rotate_url attempts) m w (take_other m.active_url m.fallback_urls)

abbrev pub get_active_url : Endpoints → Option String
get_active_url m = if str_eq m.active_url "" then none else some m.active_url

abbrev pub should_rotate : Endpoints → Bool
should_rotate m = not (is_empty m.fallback_urls)

pub data NewError : Type 0 where
  no_urls all_failed : NewError

module _ {W : Type 0} (connect : String → W → Bool × W) where
  -- The loop over the sorted URLs: the first one that connects is the active one, and all others are
  -- fallbacks.
  unfoldable pub connect_first :
      List RpcUrl → Option String → List String → W → (Option String × List String) × W
  connect_first [] active fallbacks w = ((active, fallbacks), w)
  connect_first (u ∷ us) (some active) fallbacks w =
      connect_first us (some active) (fallbacks ++ as_str u.url ∷ []) w
  connect_first (u ∷ us) none fallbacks w =
      let connected = connect (as_str u.url) w in
      elim connected.0 [
        | true ↦ connect_first us (some (as_str u.url)) fallbacks connected.1
        | false ↦ connect_first us none (fallbacks ++ as_str u.url ∷ []) connected.1
      ]

  abbrev pub chosen : (Option String × List String) × W → Result NewError Endpoints × W
  chosen ((none, fallbacks), w) = (err all_failed, w)
  chosen ((some active, fallbacks), w) =
      (ok (record { active_url = active; fallback_urls = fallbacks }), w)

  -- `WsTransportClient::new`, up to its first connection to the endpoint.
  unfoldable pub new : Network → W → Result NewError Endpoints × W
  unfolding connect_first sort_by_weight
  new network w =
      let ws_urls = sort_by_weight (candidates "ws_rpc" network.rpc_urls) in
      if is_empty ws_urls then (err no_urls, w) else chosen (connect_first ws_urls none [] w)
