-- ===== src/Transport.antt =====
-- src/services/blockchain/transports: the choice of an RPC endpoint and the rotation between endpoints
-- when requests fail. `Http` and `Ws` are the two endpoint managers and the constructors of their
-- clients.
pub mod Http
pub mod Ws
pub mod Sorting
use openzeppelin_monitor.Prelude.{
  ℕ, ◌≡◌, Bool, true, false, not, ◌&&◌, List, [], ◌∷◌, ◌++◌, Option, none, some, String, str_eq,
  ltb, leb, if◌then◌else◌, filter,
}
use openzeppelin_monitor.Prelude.Result.{Result}
use openzeppelin_monitor.Models.Network.{RpcUrl}

-- The trait `RotatingTransport`. The network behind it is a state that each call may change.
pub record RotatingTransport (W : Type 0) : Type 0 where
  pub try_connect : String → W → Result String (Unit {0}) × W
  pub update_client : String → W → Result String (Unit {0}) × W

-- The URLs that an endpoint manager keeps behind its locks.
pub record Endpoints : Type 0 where
  pub active_url : String
  pub fallback_urls : List String

-- `sort_by(|a, b| b.weight.cmp(&a.weight))`: heavier first, and stable.
unfoldable pub insert_by_weight : RpcUrl → List RpcUrl → List RpcUrl
insert_by_weight u [] = u ∷ []
insert_by_weight u (v ∷ vs) =
    let rest = insert_by_weight u vs in if leb v.weight u.weight then u ∷ v ∷ vs else v ∷ rest

unfoldable pub sort_by_weight : List RpcUrl → List RpcUrl
unfolding insert_by_weight
sort_by_weight [] = []
sort_by_weight (u ∷ us) = insert_by_weight u (sort_by_weight us)

-- The URLs of a type that have a weight.
abbrev pub candidates : String → List RpcUrl → List RpcUrl
candidates type urls = filter (λ u. str_eq u.type_ type && ltb 0 u.weight) urls
