-- ===== src/Tests/Transport.antt =====
-- Runs of the endpoint managers of src/services/blockchain/transports.
use openzeppelin_monitor.Prelude.{
  Option, ℕ, suc, ◌≡◌, refl, true, false, Bool, [], ◌∷◌, ◌++◌, some, none, String, arith, str_eq,
  if◌then◌else◌,
}
use openzeppelin_monitor.Prelude.Result.{ok, err}
use openzeppelin_monitor.Models.Network.{Network}
use openzeppelin_monitor.Transport.{RotatingTransport, candidates}
use openzeppelin_monitor.Transport.Http.{
  AttemptOutcome, success, network_error, verdict, http, network_failed, return, try_rotate_url,
  send_raw_request,
}
use openzeppelin_monitor.Transport.Http.Rotation as HttpRotation
use openzeppelin_monitor.Transport.Http
use openzeppelin_monitor.Transport.Http.Start as HttpStart
use openzeppelin_monitor.Transport.Http.Start.{new-Starts}
use openzeppelin_monitor.Transport.Http.Rotation.{try_rotate_url-Keeps}
use openzeppelin_monitor.Transport.Http.Requests.{
  IsOpen, Refuses, answer, endpoints, send_raw_request_reaches, send_raw_request_forever,
}
use openzeppelin_monitor.Transport.Ws
use openzeppelin_monitor.Transport.Ws.Rotation as WsRotation
use openzeppelin_monitor.Transport.Ws.Rotation.{IsUp, rotate_url-Keeps, rotate_url_reaches}
use openzeppelin_monitor.Transport.Ws.Start.{StartsWith, urls_of, new-StartsWith}
use openzeppelin_monitor.Tests.Data.{testnet, ws_rpc}

-- The state counts the calls; the URL "down" does not connect.
abbrev transport : RotatingTransport ℕ
transport = record {
  try_connect = λ url calls. ((if str_eq url "down" then err "refused" else ok tt), suc calls);
  update_client = λ url calls. (ok tt, suc calls);
}

-- "limited" and "busy" answer 429, "c" answers 7, all others have network errors.
abbrev request : String → ℕ → AttemptOutcome ℕ × ℕ
request url calls =
    if str_eq url "limited"
    then (success (record { status = 429; json = none; text = "slow down" }), suc calls)
    else if str_eq url "busy"
    then (success (record { status = 429; json = none; text = "busy" }), suc calls)
    else if str_eq url "c"
    then (success (record { status = 200; json = some 7; text = "" }), suc calls)
    else (network_error "unreachable", suc calls)

reaches_seven :
    answer (send_raw_request transport request 3 (endpoints "limited" ("b" ∷ "c" ∷ "d" ∷ [])) 0)
    ≡ some (ok 7)
unfolding send_raw_request try_rotate_url verdict
reaches_seven = refl

is_open : (url : String) → str_eq url "down" ≡ false → IsOpen transport request url
is_open url up = record { connects = λ w. rw up refl; updates = λ w. refl }

limited : Refuses transport request "limited"
unfolding verdict
limited = record { error = λ w e. http 429 "limited" "slow down" (some e); refuses = λ w. refl }

busy : Refuses transport request "busy"
unfolding verdict
busy = record { error = λ w e. http 429 "busy" "busy" (some e); refuses = λ w. refl }

unreachable : Refuses transport request "b"
unfolding verdict
unreachable = record { error = λ w e. network_failed "unreachable" (some e); refuses = λ w. refl }

good : (w : ℕ) → verdict "c" ((request "c" w).0) ≡ return (ok 7)
unfolding verdict
good w = refl

send_raw_request_reaches_example :
    answer
      (send_raw_request transport request (3) (endpoints "limited" ("b" ∷ [] ++ "c" ∷ "d" ∷ [])) 0)
    ≡ some (ok 7)
send_raw_request_reaches_example =
    send_raw_request_reaches transport request "limited" ("b" ∷ []) "c" ("d" ∷ []) 0 7
      (refl, (refl, (refl, (refl, tt)))) (limited, (unreachable, tt))
      (is_open "b" refl, (is_open "c" refl, tt)) good

send_raw_request_forever_example :
    send_raw_request transport request 100 (endpoints "limited" ("busy" ∷ [])) 0 ≡ none
send_raw_request_forever_example =
    send_raw_request_forever transport request 100 "limited" "busy" [] 0 (refl, (refl, tt))
      (limited, (busy, tt)) (is_open "limited" refl, (is_open "busy" refl, tt))

try_rotate_url-Keeps_example :
    HttpRotation.Keeps transport
      (endpoints "a" ("b" ∷ "c" ∷ []))
      (try_rotate_url transport (endpoints "a" ("b" ∷ "c" ∷ [])) 0)
try_rotate_url-Keeps_example =
    try_rotate_url-Keeps transport (endpoints "a" ("b" ∷ "c" ∷ [])) 0 (refl, (refl, tt))

rotate_url-Keeps_example :
    WsRotation.Keeps
      (endpoints "a" ("down" ∷ "c" ∷ []))
      (Ws.rotate_url transport 3 (endpoints "a" ("down" ∷ "c" ∷ [])) 0)
rotate_url-Keeps_example = rotate_url-Keeps transport 3 (endpoints "a" ("down" ∷ "c" ∷ [])) 0

rotate_url_reaches_example :
    let r = Ws.rotate_url transport 2 (endpoints "a" ("down" ∷ [] ++ "c" ∷ "d" ∷ [])) 0 in
    (r.0 ≡ ok tt) × (r.1.0.active_url ≡ "c")
rotate_url_reaches_example =
    rotate_url_reaches transport 2 "a" ("down" ∷ []) "c" ("d" ∷ []) 0 (omega arith)
      (refl, (refl, tt)) ((λ w. ("refused", refl)), tt)
      (record { connects = λ w. refl; updates = λ w. refl })

abbrev ws_network : Network
ws_network = record testnet {
  rpc_urls = ws_rpc "down" 50 ∷ ws_rpc "b" 10 ∷ ws_rpc "c" 70 ∷ ws_rpc "d" 0 ∷ [];
}

abbrev connect : String → ℕ → Bool × ℕ
connect url calls = ((if str_eq url "c" then false else true), suc calls)

new-StartsWith_example :
    StartsWith connect
      (urls_of (candidates "ws_rpc" ws_network.rpc_urls))
      (Ws.new connect ws_network 0).0
new-StartsWith_example = new-StartsWith connect ws_network 0

-- "https://b.example", the heavier one, does not answer.
abbrev probe : String → ℕ → Option ℕ × ℕ
probe url calls = ((if str_eq url "https://b.example" then some 503 else some 200), suc calls)

new-Starts_example :
    HttpStart.Starts
      (λ url. true)
      true
      probe
      testnet.rpc_urls
      (Http.new (λ url. true) true probe testnet 0).0
new-Starts_example = new-Starts (λ url. true) true probe testnet 0
