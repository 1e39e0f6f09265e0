-- ===== src/Models/NetworkConfig.antt =====
-- src/models/config/network_config.rs and src/utils/cron_utils.rs: the checks on a network's
-- configuration and the number of past blocks that suits it. The crate cron is the parameter `Cron`;
-- `str::trim` and `str::to_lowercase` are the fields of `Unicode`. A message without its numbers and
-- names is a constructor; warnings are left out.
pub mod Validation
pub mod Uniqueness
use text.Mathlib.Text.{starts_with}
use Prim.Native.Char.{Char, code}
use openzeppelin_monitor.Prelude.{
  ℕ, zero, suc, ◌+◌, ◌-◌, ◌/◌, ◌≡◌, Bool, true, false, not, ◌&&◌, ◌||◌, List, [], ◌∷◌, ◌++◌, Option,
  none, some, String, ltb, leb, ◌==◌, str_eq, if◌then◌else◌, any, all,
}
use openzeppelin_monitor.Prelude.Chars.{all_chars}
use openzeppelin_monitor.Prelude.Word.{u64}
use openzeppelin_monitor.Prelude.Result.{Result, ok, err, ◌>>◌, ensure}
use openzeppelin_monitor.Models.Block.{unwrap_or}
use openzeppelin_monitor.Models.Network.{
  Network, BlockChainType, evm, stellar, midnight, solana, RpcUrl, SecretValue, as_str,
}

-- `after text` is none if the text is no schedule, and else the times (in milliseconds) at which the
-- schedule fires from now on, in ascending order.
pub record Cron : Type 0 where
  pub after : String → Option (List ℕ)

pub record Unicode : Type 0 where
  pub trim : String → String
  pub to_lowercase : String → String

abbrev pub interval : List ℕ → Option ℕ
interval (first ∷ second ∷ _) = some (second - first)
interval _ = none

abbrev pub get_cron_interval_ms : Cron → String → Option ℕ
get_cron_interval_ms cron cron_schedule = elim (cron.after cron_schedule) [
  | none ↦ none
  | some occurrences ↦ interval occurrences
]

-- Division by zero panics.
abbrev pub checked_div : ℕ → ℕ → Option ℕ
checked_div a b = if b == 0 then none else some (a / b)

-- None is a panic.
unfoldable pub get_recommended_past_blocks : Cron → Network → Option ℕ
get_recommended_past_blocks cron network =
    let cron_interval_ms = unwrap_or 0 (get_cron_interval_ms cron network.cron_schedule) in
    elim (checked_div cron_interval_ms network.block_time_ms) [
      | none ↦ none
      | some blocks_per_cron ↦ some (u64 (blocks_per_cron + network.confirmation_blocks + 1))
    ]

pub data ConfigError : Type 0 where
  name_required slug_characters : ConfigError
  rpc_url_configuration : RpcUrl → ConfigError
  block_time confirmation_blocks cron_missing cron_invalid max_past_blocks : ConfigError
  duplicate_name duplicate_slug : String → ConfigError

abbrev pub is_slug_char : Char → Bool
is_slug_char c =
    (leb b'a' (code c) && leb (code c) b'z')
    || (leb b'0' (code c) && leb (code c) b'9')
    || code c == b'_'

abbrev pub supported_types : BlockChainType → List String
supported_types midnight = "ws_rpc" ∷ []
supported_types _ = "rpc" ∷ []

abbrev pub supported_protocols : BlockChainType → List String
supported_protocols midnight = "wss://" ∷ "ws://" ∷ []
supported_protocols _ = "http://" ∷ "https://" ∷ "wss://" ∷ "ws://" ∷ []

unfoldable pub is_valid_url : BlockChainType → RpcUrl → Bool
is_valid_url type rpc_url =
    (any (str_eq rpc_url.type_) (supported_types type)
      && any (starts_with (as_str rpc_url.url)) (supported_protocols type))
    && leb rpc_url.weight 100

-- The loop over the URLs returns at the first one that is not valid.
unfoldable pub validate_urls : BlockChainType → List RpcUrl → Result ConfigError (Unit {0})
unfolding is_valid_url
validate_urls type [] = ok tt
validate_urls type (url ∷ urls) =
    ensure (is_valid_url type url) (rpc_url_configuration url) >> validate_urls type urls

-- `cron::Schedule::from_str`.
abbrev pub is_schedule : Cron → String → Bool
is_schedule cron text = elim (cron.after text) [ none ↦ false | some _ ↦ true ]

-- The recommendation is only computed to warn, but it divides by the block time: none is its panic.
-- (It is called after the block time was checked.)
abbrev pub validate_max_past_blocks : Option ℕ → Result ConfigError (Unit {0})
validate_max_past_blocks none = ok tt
validate_max_past_blocks (some max_blocks) = ensure (not (max_blocks == 0)) max_past_blocks

unfoldable pub validate : Cron → Network → Result ConfigError (Unit {0})
unfolding validate_urls
validate cron network =
    ensure (not (str_eq network.name "")) name_required
    >> (ensure (all_chars is_slug_char network.slug) slug_characters
        >> (validate_urls network.network_type network.rpc_urls
            >> (ensure (not (ltb network.block_time_ms 100)) block_time
                >> (ensure (not (network.confirmation_blocks == 0)) confirmation_blocks
                    >> (ensure (not (str_eq network.cron_schedule "")) cron_missing
                        >> (ensure (is_schedule cron network.cron_schedule) cron_invalid
                            >> validate_max_past_blocks network.max_past_blocks))))))

abbrev pub normalize_string : Unicode → String → String
normalize_string u input = u.to_lowercase (u.trim input)

unfoldable pub validate_uniqueness :
    Unicode → List Network → Network → Result ConfigError (Unit {0})
validate_uniqueness u instances current =
    ensure
      (not
        (any (λ n. str_eq (normalize_string u n.name) (normalize_string u current.name)) instances))
      (duplicate_name current.name)
    >> ensure
        (not (
          any (λ n. str_eq (normalize_string u n.slug) (normalize_string u current.slug))
            instances))
        (duplicate_slug current.slug)

-- `load_all`, over the networks that load: each is checked against those before it.
unfoldable pub load_all_from :
    Unicode → List Network → List Network → Result ConfigError (List Network)
unfolding validate_uniqueness
load_all_from u loaded [] = ok loaded
load_all_from u loaded (network ∷ networks) =
    let rest = load_all_from u (loaded ++ network ∷ []) networks in
    elim (validate_uniqueness u loaded network) [ ok _ ↦ rest | err e ↦ err e ]
