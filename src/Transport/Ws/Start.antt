-- ===== src/Transport/Ws/Start.antt =====
-- src/services/blockchain/transports/ws/transport.rs, `new`: the endpoints that a client starts with.
use openzeppelin_monitor.Prelude.{
  sym, subst, Bool, List, [], ◌∷◌, ◌++◌, Option, none, some, String, Bool-cases, inl, inr, map,
  is_empty,
}
use mathlib.Core.List.{Perm, append_assoc, append-nil, perm_middle}
use mathlib.Core.List.Perm
use openzeppelin_monitor.Prelude.Result.{Result, ok, err}
use openzeppelin_monitor.Models.Network.{Network, RpcUrl, as_str}
use openzeppelin_monitor.Transport.{Endpoints, candidates, sort_by_weight}
use openzeppelin_monitor.Transport.Sorting.{sort_by_weight-perm}
use openzeppelin_monitor.Transport.Ws.{NewError, connect_first, chosen, new}

abbrev pub urls_of : List RpcUrl → List String
urls_of us = map (λ (u : RpcUrl). as_str u.url) us

-- The active URL, if there is one, with the fallbacks.
abbrev pub all_urls : Option String × List String → List String
all_urls (none, fallbacks) = fallbacks
all_urls (some active, fallbacks) = active ∷ fallbacks

module _ {W : Type 0} (connect : String → W → Bool × W) where
  connect_first-perm :
      (us : List RpcUrl) (active : Option String) (fallbacks : List String) (w : W)
      → Perm
          (all_urls (connect_first connect us active fallbacks w).0)
          (all_urls (active, fallbacks) ++ urls_of us)
  unfolding connect_first
  connect_first-perm [] active fallbacks w =
      subst (Perm (all_urls (active, fallbacks))) (sym (append-nil _))
        (Perm.refl (all_urls (active, fallbacks)))
  connect_first-perm (u ∷ us) (some active) fallbacks w =
      subst
        (Perm
          (all_urls (connect_first connect us (some active) (fallbacks ++ as_str u.url ∷ []) w).0))
        (append_assoc (active ∷ fallbacks) (as_str u.url ∷ []) (urls_of us))
        (connect_first-perm us (some active) (fallbacks ++ as_str u.url ∷ []) w)
  connect_first-perm (u ∷ us) none fallbacks w = elim (Bool-cases (connect (as_str u.url) w).0) [
    | inl up ↦
        rw (up, connect_first)
          (Perm.trans
            (connect_first-perm us (some (as_str u.url)) fallbacks (connect (as_str u.url) w).1)
            (Perm.symm (perm_middle fallbacks (urls_of us))))
    | inr down ↦
        rw (down, connect_first)
          (subst
            (Perm (
              all_urls
                (connect_first connect us none (fallbacks ++ as_str u.url ∷ [])
                  (connect (as_str u.url) w).1).0))
            (append_assoc fallbacks (as_str u.url ∷ []) (urls_of us))
            (connect_first-perm us none (fallbacks ++ as_str u.url ∷ [])
              (connect (as_str u.url) w).1))
  ]

  -- What a client starts with.
  abbrev pub StartsWith : List String → Result NewError Endpoints → Type 0
  StartsWith urls (ok m) = Perm (m.active_url ∷ m.fallback_urls) urls
  StartsWith urls (err e) = Unit

  chosen-StartsWith :
      (r : (Option String × List String) × W) (urls : List String)
      → Perm (all_urls r.0) urls
      → StartsWith urls (chosen connect r).0
  chosen-StartsWith ((none, fallbacks), w) urls p = tt
  chosen-StartsWith ((some active, fallbacks), w) urls p = p

  -- A client that starts has as its active URL and fallbacks exactly the network's URLs of the type
  -- `ws_rpc` that have a weight.
  pub new-StartsWith :
      (config : Network) (w : W)
      → StartsWith (urls_of (candidates "ws_rpc" config.rpc_urls)) (new connect config w).0
  unfolding new
  new-StartsWith config w =
      let ws_urls = sort_by_weight (candidates "ws_rpc" config.rpc_urls) in
      elim (Bool-cases (is_empty ws_urls)) [
        | inl e ↦ rw e tt
        | inr e ↦ rw e (
            chosen-StartsWith (connect_first connect ws_urls none [] w)
              (urls_of (candidates "ws_rpc" config.rpc_urls))
              (Perm.trans (connect_first-perm ws_urls none [] w) (
                Perm.map (λ (u : RpcUrl). as_str u.url)
                  (sort_by_weight-perm (candidates "ws_rpc" config.rpc_urls)))))
      ]
