-- ===== src/Transport/Http/Start.antt =====
-- src/services/blockchain/transports/http/transport.rs, `new`: the endpoints that a client starts with.
use openzeppelin_monitor.Prelude.{
  ℕ, ◌≡◌, ◌≢◌, ◌≤◌, ◌<◌, refl, sym, ap, ◌∙◌, Bool, true, false, not, ◌&&◌, List, [], ◌∷◌, ◌++◌,
  String, arith, Option, none, some, str_eq, eq_iff, ltb, filter, map, All, All-mem, All-of_mem,
  mem-filter, if◌then◌else◌,
}
use mathlib.Core.List.{Memᴰ, Perm}
use mathlib.Core.List.Perm
use openzeppelin_monitor.Prelude.Result.{Result, ok, err}
use openzeppelin_monitor.Models.Network.{
  Network, RpcUrl, SecretValue, plain, environment, hashicorp_cloud_vault, as_str, secret_eq,
}
use openzeppelin_monitor.Transport.{Endpoints, candidates, sort_by_weight}
use openzeppelin_monitor.Transport.Sorting.{
  IsDescending, IsDescending-filter, All-insert_by_weight, filter-perm, sort_by_weight-IsDescending,
  sort_by_weight-perm,
}
use openzeppelin_monitor.Transport.Http.{NewError, fallbacks_of, answered, connect_first, new}

secret_eq-eq : (s t : SecretValue) → secret_eq s t ≡ true → s ≡ t
secret_eq-eq (plain s) (plain t) h = ap plain ((eq_iff s t).0 h)
secret_eq-eq (environment s) (environment t) h = ap environment ((eq_iff s t).0 h)
secret_eq-eq (hashicorp_cloud_vault s) (hashicorp_cloud_vault t) h =
    ap hashicorp_cloud_vault ((eq_iff s t).0 h)
secret_eq-eq (plain s) (environment t) h = absurd (cc)
secret_eq-eq (plain s) (hashicorp_cloud_vault t) h = absurd (cc)
secret_eq-eq (environment s) (plain t) h = absurd (cc)
secret_eq-eq (environment s) (hashicorp_cloud_vault t) h = absurd (cc)
secret_eq-eq (hashicorp_cloud_vault s) (plain t) h = absurd (cc)
secret_eq-eq (hashicorp_cloud_vault s) (environment t) h = absurd (cc)

secret_eq_refl : (s : SecretValue) → secret_eq s s ≡ true
secret_eq_refl (plain s) = (eq_iff s s).1 refl
secret_eq_refl (environment s) = (eq_iff s s).1 refl
secret_eq_refl (hashicorp_cloud_vault s) = (eq_iff s s).1 refl

secret_eq-apart : (s t : SecretValue) → secret_eq s t ≡ false → s ≢ t
secret_eq-apart s t h e =
    true_is_false (sym (secret_eq_refl t) ∙ sym (ap (λ x. secret_eq x t) e) ∙ h)
  where
    true_is_false : ◌≡◌ {A = Bool} true false → ⊥
    true_is_false k = cc

All-sort_by_weight : (P : RpcUrl → Type 0) (us : List RpcUrl) → All P us → All P (sort_by_weight us)
unfolding sort_by_weight
All-sort_by_weight P [] h = tt
All-sort_by_weight P (u ∷ us) (p, h) =
    All-insert_by_weight P u (sort_by_weight us) p (All-sort_by_weight P us h)

-- A URL of the type `rpc` with a weight.
abbrev pub IsUsable : RpcUrl → Type 0
IsUsable u = (u.type_ ≡ "rpc") × (0 < u.weight)

usable : (u : RpcUrl) → str_eq u.type_ "rpc" && ltb 0 u.weight ≡ true → IsUsable u
usable u h = ((eq_iff u.type_ "rpc").0 (ground (arith, h)), ground (arith, h))

unusable : (u : RpcUrl) → not (str_eq u.type_ "rpc" && ltb 0 u.weight) ≡ true → ¬ IsUsable u
unusable u h (t, w) = ground (arith, h, w, (eq_iff u.type_ "rpc").1 t)

-- The fallbacks of a client with the active URL `url`, out of all URLs of the network: the usable ones
-- but `url`, the heavier first.
pub record AreFallbacks (rpc_urls : List RpcUrl) (url : RpcUrl) (fallback_urls : List String)
    : Type 0 where
  pub others : List RpcUrl
  pub same : List RpcUrl
  pub unused : List RpcUrl
  pub texts : fallback_urls ≡ map (λ (u : RpcUrl). as_str u.url) others
  pub all_urls : Perm rpc_urls ((others ++ same) ++ unused)
  pub usable_others : All (λ (v : RpcUrl). IsUsable v × (v.url ≢ url.url)) others
  pub same_url : All (λ (v : RpcUrl). v.url ≡ url.url) same
  pub not_usable : All (λ (v : RpcUrl). ¬ IsUsable v) unused
  pub in_order : IsDescending others

module _ {W : Type 0} (url_parses : String → Bool) (payload_parses : Bool)
    (probe : String → W → Option ℕ × W) where
  -- The test request to the URL has been answered with success.
  pub record Answers (u : RpcUrl) : Type 0 where
    pub state : W
    pub status : ℕ
    pub answer : (probe (as_str u.url) state).0 ≡ some status
    pub at_least : 200 ≤ status
    pub below : status < 300

  -- What a client starts with.
  pub record IsStart (rpc_urls : List RpcUrl) (m : Endpoints) : Type 0 where
    pub url : RpcUrl
    pub listed : Memᴰ url rpc_urls
    pub usable : IsUsable url
    pub parses : url_parses (as_str url.url) ≡ true
    pub answers : Answers url
    pub active : m.active_url ≡ as_str url.url
    pub fallbacks : AreFallbacks rpc_urls url m.fallback_urls

  abbrev pub Starts : List RpcUrl → Result NewError Endpoints → Type 0
  Starts rpc_urls (ok m) = IsStart rpc_urls m
  Starts rpc_urls (err e) = Unit

  answered-Answers :
      (u : RpcUrl) (w : W) (o : Option ℕ)
      → (probe (as_str u.url) w).0 ≡ o
      → answered url_parses payload_parses probe o ≡ true
      → Answers u
  answered-Answers u w none e h = absurd (cc)
  answered-Answers u w (some status) e h = record {
    state = w;
    status = status;
    answer = e;
    at_least = ground (arith, h);
    below = ground (arith, h);
  }

  module _ (rpc_urls : List RpcUrl) where
    AreFallbacks-fallbacks_of :
        (url : RpcUrl)
        → AreFallbacks rpc_urls url (
            fallbacks_of url_parses payload_parses probe url
              (sort_by_weight (candidates "rpc" rpc_urls)))
    AreFallbacks-fallbacks_of url =
        let us = sort_by_weight (candidates "rpc" rpc_urls) in
        let other = λ (u : RpcUrl). not (secret_eq u.url url.url) in
        let fit = λ (u : RpcUrl). str_eq u.type_ "rpc" && ltb 0 u.weight in
        record {
          others = filter other us;
          same = filter (λ u. not (other u)) us;
          unused = filter (λ u. not (fit u)) rpc_urls;
          texts = refl;
          all_urls = Perm.trans (filter-perm fit rpc_urls) (
              Perm.append_right (filter (λ u. not (fit u)) rpc_urls) (
                Perm.trans (Perm.symm (sort_by_weight-perm (candidates "rpc" rpc_urls)))
                  (filter-perm other us)));
          usable_others = All-of_mem _ (filter other us) λ v m.
              let (listed, apart) = mem-filter other v us m in
              (
                All-mem IsUsable us listed (
                    All-sort_by_weight IsUsable (candidates "rpc" rpc_urls) (
                      All-of_mem IsUsable (candidates "rpc" rpc_urls)
                        λ u k. usable u (mem-filter fit u rpc_urls k).1)),
                secret_eq-apart v.url url.url (ground (arith, apart)),
              );
          same_url = All-of_mem _ (filter (λ u. not (other u)) us) λ v m.
              secret_eq-eq v.url url.url
                (ground (arith, (mem-filter (λ u. not (other u)) v us m).1));
          not_usable =
              All-of_mem _ (filter (λ u. not (fit u)) rpc_urls)
                λ v m. unusable v (mem-filter (λ u. not (fit u)) v rpc_urls m).1;
          in_order =
              IsDescending-filter other us
                (sort_by_weight-IsDescending (candidates "rpc" rpc_urls));
        }

    Starts-if :
        (b : Bool) (x y : Result NewError Endpoints × W)
        → (b ≡ true → Starts rpc_urls x.0)
        → (b ≡ false → Starts rpc_urls y.0)
        → Starts rpc_urls (if b then x else y).0
    Starts-if true x y h k = h refl
    Starts-if false x y h k = k refl

    connect_first-Starts :
        (us : List RpcUrl) (w : W)
        → All (λ u. Memᴰ u rpc_urls × IsUsable u) us
        → Starts rpc_urls
            (connect_first url_parses payload_parses probe
              (sort_by_weight (candidates "rpc" rpc_urls))
              us
              w).0
    unfolding connect_first
    connect_first-Starts [] w h = tt
    connect_first-Starts (u ∷ us) w ((listed, is_usable), h) =
        let probed = probe (as_str u.url) w in
        Starts-if (not (url_parses (as_str u.url))) _ _ (λ no_url. connect_first-Starts us w h)
          λ is_url.
            Starts-if (not payload_parses) _ _ (λ no_payload. tt)
              λ payload.
                Starts-if (answered url_parses payload_parses probe probed.0) _ _
                  (λ up. record {
                    url = u;
                    listed = listed;
                    usable = is_usable;
                    parses = ground (arith, is_url);
                    answers = answered-Answers u w probed.0 refl up;
                    active = refl;
                    fallbacks = AreFallbacks-fallbacks_of u;
                  })
                  λ down. connect_first-Starts us probed.1 h

  -- A client that starts has as its active URL one of the network's URLs of the type `rpc` with a
  -- weight, which parses and has answered the test request with a status from 200 to 299. Its
  -- fallbacks are all the others of these URLs, the heavier first: each URL of the network is a
  -- fallback, or equal to the active one, or has another type or no weight.
  pub new-Starts :
      (config : Network) (w : W)
      → Starts config.rpc_urls (new url_parses payload_parses probe config w).0
  unfolding new
  new-Starts config w =
      connect_first-Starts config.rpc_urls (sort_by_weight (candidates "rpc" config.rpc_urls)) w (
        All-sort_by_weight _ (candidates "rpc" config.rpc_urls) (
          All-of_mem _ (candidates "rpc" config.rpc_urls) λ u m.
            let (listed, fit) =
              mem-filter (λ (u : RpcUrl). str_eq u.type_ "rpc" && ltb 0 u.weight) u config.rpc_urls
                m in
            (listed, usable u fit)))
