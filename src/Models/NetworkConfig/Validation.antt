-- ===== src/Models/NetworkConfig/Validation.antt =====
-- src/models/config/network_config.rs: what `validate` accepts, and the recommendation of past
-- blocks.
use openzeppelin_monitor.Prelude.{
  ℕ, ◌+◌, ◌/◌, ◌≤◌, ◌≡◌, ◌≢◌, ◌↔◌, refl, Bool, true, false, not, ◌&&◌, List, [], ◌∷◌, Option, none,
  some, String, str_eq, eq_iff, arith, All, Bool-cases, inl, inr, ltb, ◌==◌,
}
use openzeppelin_monitor.Prelude.Word.{u64}
use openzeppelin_monitor.Prelude.Chars.{all_chars}
use openzeppelin_monitor.Prelude.Result.{Result, ok, err, is_ok, ◌>>◌, ensure}
use openzeppelin_monitor.Models.Block.{unwrap_or}
use openzeppelin_monitor.Models.Network.{Network, RpcUrl, BlockChainType}
use openzeppelin_monitor.Models.NetworkConfig.{
  Cron, get_cron_interval_ms, get_recommended_past_blocks, is_slug_char, is_valid_url,
  validate_urls, is_schedule, validate_max_past_blocks, validate,
}

-- What `validate` asks of a network.
pub record IsValid (cron : Cron) (network : Network) : Type 0 where
  pub name : network.name ≢ ""
  pub slug : all_chars is_slug_char network.slug ≡ true
  pub rpc_urls : All (λ url. is_valid_url network.network_type url ≡ true) network.rpc_urls
  pub block_time_ms : 100 ≤ network.block_time_ms
  pub confirmation_blocks : 1 ≤ network.confirmation_blocks
  pub cron_schedule : network.cron_schedule ≢ ""
  pub is_schedule : is_schedule cron network.cron_schedule ≡ true
  pub max_past_blocks : network.max_past_blocks ≢ some 0

then_ok :
    {E : Type 0} (b : Bool) (e : E) (r : Result E (Unit {0}))
    → is_ok (ensure b e >> r) ≡ b && is_ok r
then_ok true e r = refl
then_ok false e r = refl

-- The checks after one another accept if all of them do.
then_ok_of : {E : Type 0} (q r : Result E (Unit {0})) → is_ok (q >> r) ≡ is_ok q && is_ok r
then_ok_of (ok _) r = refl
then_ok_of (err e) r = refl

validate_urls_ok :
    (t : BlockChainType) (urls : List RpcUrl)
    → (is_ok (validate_urls t urls) ≡ true) ↔ All (λ url. is_valid_url t url ≡ true) urls
unfolding validate_urls
validate_urls_ok t [] = (λ _. tt, λ _. refl)
validate_urls_ok t (u ∷ us) = elim (Bool-cases (is_valid_url t u)) [
  | inl e ↦ (
    λ h. (e, (validate_urls_ok t us).0 (ground (arith, h, e))),
    λ (p, h). rw e ((validate_urls_ok t us).1 h),
  )
  | inr e ↦ (λ h. ground (arith, h, e), λ (p, h). ground (arith, p, e))
]

max_past_blocks_ok : (m : Option ℕ) → (is_ok (validate_max_past_blocks m) ≡ true) ↔ (m ≢ some 0)
max_past_blocks_ok none = (λ _. cc, λ _. refl)
max_past_blocks_ok (some n) = ground arith

-- The checks of `validate`, all of them together.
abbrev checks : Cron → Network → Bool
checks cron network =
    not (str_eq network.name "")
    && (all_chars is_slug_char network.slug
        && (is_ok (validate_urls network.network_type network.rpc_urls)
            && (not (ltb network.block_time_ms 100)
                && (not (network.confirmation_blocks == 0)
                    && (not (str_eq network.cron_schedule "")
                        && (is_schedule cron network.cron_schedule
                            && is_ok (validate_max_past_blocks network.max_past_blocks)))))))

validate-checks :
    (cron : Cron) (network : Network) → is_ok (validate cron network) ≡ checks cron network
unfolding validate
validate-checks cron network = simp (then_ok, then_ok_of)

not_empty : (s : String) → (not (str_eq s "") ≡ true) ↔ (s ≢ "")
not_empty s = ground (arith, eq_iff s "")

-- A network is accepted exactly if it has a name, a slug of the allowed characters only, URLs that each
-- have a supported type, protocol and weight, a block time of at least 100 ms, a confirmation, a
-- cron schedule that parses, and a limit of past blocks, if any, other than 0. An empty slug and an
-- empty list of URLs are accepted, and no parameter of a chain is required.
pub validate_iff :
    (cron : Cron) (network : Network)
    → (is_ok (validate cron network) ≡ true) ↔ IsValid cron network
validate_iff cron network = rw (validate-checks cron network) (
  (λ h. record {
    name = (not_empty network.name).0 (ground (arith, h));
    slug = ground (arith, h);
    rpc_urls = (validate_urls_ok network.network_type network.rpc_urls).0 (ground (arith, h));
    block_time_ms = ground (arith, h);
    confirmation_blocks = ground (arith, h);
    cron_schedule = (not_empty network.cron_schedule).0 (ground (arith, h));
    is_schedule = ground (arith, h);
    max_past_blocks = (max_past_blocks_ok network.max_past_blocks).0 (ground (arith, h));
  }),
  λ v. ground (
    arith,
    (not_empty network.name).1 v.name,
    v.slug,
    (validate_urls_ok network.network_type network.rpc_urls).1 v.rpc_urls,
    v.block_time_ms,
    v.confirmation_blocks,
    (not_empty network.cron_schedule).1 v.cron_schedule,
    v.is_schedule,
    (max_past_blocks_ok network.max_past_blocks).1 v.max_past_blocks,
  ),
)

-- For a network that is accepted the recommendation is computed (the block time is not zero): the
-- blocks of a cron interval, the confirmations and one more.
pub get_recommended_past_blocks_of_validate :
    (cron : Cron) (network : Network)
    → is_ok (validate cron network) ≡ true
    → get_recommended_past_blocks cron network
      ≡ some (
          u64 (
            unwrap_or 0 (get_cron_interval_ms cron network.cron_schedule) / network.block_time_ms
            + network.confirmation_blocks
            + 1))
unfolding get_recommended_past_blocks
get_recommended_past_blocks_of_validate cron network h =
    let valid = (validate_iff cron network).0 h in ground (arith, valid.block_time_ms)
