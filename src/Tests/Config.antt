-- ===== src/Tests/Config.antt =====
-- Runs of src/models/config/network_config.rs.
use openzeppelin_monitor.Prelude.{◌≡◌, ◌↔◌, refl, true, [], ◌∷◌}
use openzeppelin_monitor.Prelude.Result.{ok, is_ok}
use openzeppelin_monitor.Models.Network.{Network}
use openzeppelin_monitor.Models.NetworkConfig.{Unicode, validate, validate_urls, load_all_from}
use openzeppelin_monitor.Models.NetworkConfig.Validation.{IsValid, validate_iff}
use openzeppelin_monitor.Models.NetworkConfig.Uniqueness.{IsUnique, load_all_from-IsUnique}
use openzeppelin_monitor.Tests.Data.{testnet, cron}

accepts_testnet : is_ok (validate cron testnet) ≡ true
unfolding validate validate_urls
accepts_testnet = refl

validate_iff_example : (is_ok (validate cron testnet) ≡ true) ↔ IsValid cron testnet
validate_iff_example = validate_iff cron testnet

-- Texts without outer spaces and capitals.
abbrev unicode : Unicode
unicode = record { trim = λ t. t; to_lowercase = λ t. t }

abbrev mainnet : Network
mainnet = record testnet { name = "Stellar Mainnet"; slug = "stellar_mainnet" }

loads_two : load_all_from unicode [] (testnet ∷ mainnet ∷ []) ≡ ok (testnet ∷ mainnet ∷ [])
unfolding load_all_from
loads_two = refl

load_all_from-IsUnique_example : IsUnique unicode (testnet ∷ mainnet ∷ [])
load_all_from-IsUnique_example =
    load_all_from-IsUnique unicode [] (testnet ∷ mainnet ∷ []) (testnet ∷ mainnet ∷ []) tt loads_two
