-- ===== src/Wallet/Config.antt =====
-- The configuration of the wallet service (backend/internal/domain/wallet_service.go). A Go map is
-- a list of its entries, in the order in which it happens to be walked.
use uitgo_monorepo.Base.{
  String, ◌≡◌, refl, Bool, true, false, ◌&&◌, Option, none, some, List, [], ◌∷◌, ◌==◌, arith,
  eq_iff, if◌then◌else◌, Option-cases,
}
use uitgo_monorepo.Base.Int.{ℤ, pos, ◌≤ℤ◌, ltb_ℤ, leb_ℤ}
use uitgo_monorepo.Base.Text.{is_empty, to_lower}

abbrev pub Fares : Type 0
Fares = List (String × ℤ)

pub record WalletServiceConfig : Type 0 where
  pub min_top_up_amount : ℤ
  pub max_top_up_amount : ℤ
  pub default_trip_fare : ℤ
  pub reward_points_per_trip : ℤ
  pub service_fares : Fares

-- `fares[k]`, with whether the key is there.
unfoldable pub fare_of : String → Fares → Option ℤ
fare_of k [] = none
fare_of k ((j, v) ∷ fares) = if j == k then some v else fare_of k fares

-- `fares[k] = v`
unfoldable pub set_fare : String → ℤ → Fares → Fares
set_fare k v [] = (k, v) ∷ []
set_fare k v ((j, x) ∷ fares) = if j == k then (k, v) ∷ fares else (j, x) ∷ set_fare k v fares

-- The loop of `WithWalletConfig` over the given fares.
unfoldable pub copy_fares : Fares → Fares → Fares
unfolding set_fare
copy_fares made [] = made
copy_fares made ((k, v) ∷ given) =
    copy_fares (if ltb_ℤ (pos 0) v then set_fare (to_lower k) v made else made) given

abbrev has_fares : Fares → Bool
has_fares [] = false
has_fares (_ ∷ _) = true

-- The option that `WithWalletConfig(cfg)` is.
unfoldable pub with_wallet_config : WalletServiceConfig → WalletServiceConfig → WalletServiceConfig
with_wallet_config cfg current = record {
  min_top_up_amount =
      if ltb_ℤ (pos 0) cfg.min_top_up_amount
      then cfg.min_top_up_amount
      else current.min_top_up_amount;
  max_top_up_amount =
      if ltb_ℤ (pos 0) cfg.max_top_up_amount && leb_ℤ cfg.min_top_up_amount cfg.max_top_up_amount
      then cfg.max_top_up_amount
      else current.max_top_up_amount;
  default_trip_fare =
      if ltb_ℤ (pos 0) cfg.default_trip_fare
      then cfg.default_trip_fare
      else current.default_trip_fare;
  reward_points_per_trip =
      if leb_ℤ (pos 0) cfg.reward_points_per_trip
      then cfg.reward_points_per_trip
      else current.reward_points_per_trip;
  service_fares =
      if has_fares cfg.service_fares
      then copy_fares [] cfg.service_fares
      else current.service_fares;
}

abbrev pub default_wallet_config : WalletServiceConfig
default_wallet_config = record {
  min_top_up_amount = pos 10000;
  max_top_up_amount = pos 5000000;
  default_trip_fare = pos 0;
  reward_points_per_trip = pos 0;
  service_fares =
      ("uit-bike", pos 0)
      ∷ ("uit-go", pos 0)
      ∷ ("uit-car", pos 0)
      ∷ ("uit-plus", pos 0)
      ∷ ("uit-rider", pos 0)
      ∷ [];
}

apply_option :
    Option (WalletServiceConfig → WalletServiceConfig) → WalletServiceConfig → WalletServiceConfig
apply_option none cfg = cfg
apply_option (some opt) cfg = opt cfg

-- The options of `NewWalletService`, in turn; a nil option is skipped.
unfoldable pub configured :
    List (Option (WalletServiceConfig → WalletServiceConfig))
    → WalletServiceConfig
    → WalletServiceConfig
unfolding apply_option
configured [] cfg = cfg
configured (opt ∷ opts) cfg = configured opts (apply_option opt cfg)

fare_or : ℤ → Option ℤ → ℤ
fare_or def none = def
fare_or def (some fare) = if ltb_ℤ (pos 0) fare then fare else def

unfoldable pub fare_for_service : WalletServiceConfig → String → ℤ
unfolding fare_or
fare_for_service cfg service =
    if is_empty service
    then cfg.default_trip_fare
    else fare_or cfg.default_trip_fare (fare_of (to_lower service) cfg.service_fares)

-- What every option keeps of a configuration.
pub record IsSane (cfg : WalletServiceConfig) : Type 0 where
  pub min_positive : pos 1 ≤ℤ cfg.min_top_up_amount
  pub max_positive : pos 1 ≤ℤ cfg.max_top_up_amount
  pub fare_nonneg : pos 0 ≤ℤ cfg.default_trip_fare
  pub reward_nonneg : pos 0 ≤ℤ cfg.reward_points_per_trip

with_wallet_config-IsSane :
    (cfg current : WalletServiceConfig) → IsSane current → IsSane (with_wallet_config cfg current)
unfolding with_wallet_config
with_wallet_config-IsSane cfg current h = ground arith

-- A list of configurations given to `WithWalletConfig`, as options.
abbrev pub options :
    List WalletServiceConfig → List (Option (WalletServiceConfig → WalletServiceConfig))
options [] = []
options (c ∷ cs) = some (with_wallet_config c) ∷ options cs

configured-IsSane :
    (cs : List WalletServiceConfig) (cfg : WalletServiceConfig)
    → IsSane cfg
    → IsSane (configured (options cs) cfg)
unfolding configured
configured-IsSane [] cfg h = h
configured-IsSane (c ∷ cs) cfg h =
    configured-IsSane cs (with_wallet_config c cfg) (with_wallet_config-IsSane c cfg h)

-- A fare is never negative: the fare of any service under a sane configuration.
fare_for_service-nonneg :
    (cfg : WalletServiceConfig) (service : String)
    → IsSane cfg
    → pos 0 ≤ℤ fare_for_service cfg service
unfolding fare_for_service
fare_for_service-nonneg cfg service h =
    ground (arith, Option-cases (fare_of (to_lower service) cfg.service_fares))

-- Whatever configurations are given in turn, no service has a negative fare.
pub configured-fare_nonneg :
    (cs : List WalletServiceConfig) (service : String)
    → pos 0 ≤ℤ fare_for_service (configured (options cs) default_wallet_config) service
configured-fare_nonneg cs service =
    fare_for_service-nonneg _ service (configured-IsSane cs default_wallet_config (omega arith))

-- The fares that an option copied are found by the lower-cased service id.
fare_of-set_fare :
    (k j : String) (v : ℤ) (fares : Fares)
    → fare_of j (set_fare k v fares) ≡ (if k == j then some v else fare_of j fares)
unfolding fare_of set_fare
fare_of-set_fare k j v [] = refl
fare_of-set_fare k j v ((i, x) ∷ fares) =
    ground (arith, eq_iff k j, eq_iff i k, eq_iff i j, fare_of-set_fare k j v fares)
