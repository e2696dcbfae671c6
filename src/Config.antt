-- ===== src/Config.antt =====
-- `Load` of internal/config/config.go.
use wallet_ledger_service.Common.{
  String, ◌≡◌, refl, sym, ap, ◌∙◌, ◌↔◌, Bool, true, false, Option, none, some, List, [], ◌∷◌,
  str_eq, arith, if◌then◌else◌,
}
use wallet_ledger_service.Common.Int.{ℤ}

pub record Config : Type 0 where
  pub server_port : String
  pub database_url : String
  pub redis_url : String
  pub rabbitmq_url : String
  pub jwt_secret : String
  pub jwt_expiration : ℤ
  pub cookie_secure : Bool

-- viper over the process environment, with the defaults that have been set, and
-- `time.ParseDuration`.
pub record Settings : Type 0 where
  pub get_string : List (String × String) → String → String
  pub get_bool : List (String × Bool) → String → Bool
  pub parse_duration : String → Option ℤ

pub data Loaded : Type 0 where
  loaded : Config → Loaded
  failed : String → Loaded

abbrev pub defaults : List (String × String)
defaults = ("SERVER_PORT", "8080") ∷ ("JWT_EXPIRATION", "24h") ∷ []

module _ (v : Settings) where
  abbrev pub value : String → String
  value name = v.get_string defaults name

  abbrev check_required : Config → Loaded
  check_required cfg =
      if str_eq cfg.database_url ""
      then failed "DATABASE_URL is required"
      else if str_eq cfg.jwt_secret ""
      then failed "JWT_SECRET is required"
      else if str_eq cfg.redis_url ""
      then failed "REDIS_URL is required"
      else if str_eq cfg.rabbitmq_url ""
      then failed "RABBITMQ_URL is required"
      else loaded cfg

  abbrev config_of : ℤ → Config
  config_of dur = record {
    server_port = value "SERVER_PORT";
    database_url = value "DATABASE_URL";
    redis_url = value "REDIS_URL";
    rabbitmq_url = value "RABBITMQ_URL";
    jwt_secret = value "JWT_SECRET";
    jwt_expiration = dur;
    cookie_secure = v.get_bool (("COOKIE_SECURE", true) ∷ []) "COOKIE_SECURE";
  }

  abbrev with_duration : Option ℤ → Loaded
  with_duration none = failed "invalid JWT_EXPIRATION"
  with_duration (some dur) = check_required (config_of dur)

  unfoldable pub load : Loaded
  load = with_duration (v.parse_duration (value "JWT_EXPIRATION"))

  -- The four settings that must be there.
  abbrev pub IsComplete : Type 0
  IsComplete =
      (str_eq (value "DATABASE_URL") "" ≡ false)
      × (str_eq (value "JWT_SECRET") "" ≡ false)
      × (str_eq (value "REDIS_URL") "" ≡ false)
      × (str_eq (value "RABBITMQ_URL") "" ≡ false)

  checked :
      (dur : ℤ) (cfg : Config)
      → check_required (config_of dur) ≡ loaded cfg
      → IsComplete × (cfg ≡ config_of dur)
  checked dur cfg h = (ground arith, ground arith)

  loaded_once :
      (o : Option ℤ) (cfg : Config)
      → with_duration o ≡ loaded cfg
      → IsComplete × (o ≡ some cfg.jwt_expiration)
  loaded_once none cfg h = cc
  loaded_once (some dur) cfg h =
      let (complete, same) = checked dur cfg h in
      (complete, ap (λ (c : Config). some c.jwt_expiration) (sym same))

  -- `Load` returns a configuration with a given expiration exactly where the four required
  -- settings are not empty and JWT_EXPIRATION parses to that expiration.
  pub load-loaded :
      (dur : ℤ)
      → ((cfg : Config) × (load ≡ loaded cfg) × (cfg.jwt_expiration ≡ dur))
        ↔ (IsComplete × (v.parse_duration (value "JWT_EXPIRATION") ≡ some dur))
  unfolding load
  load-loaded dur = (
    λ (cfg, h, same).
        let (complete, found) = loaded_once _ cfg h in (complete, found ∙ ap some same),
    λ ((a, b, c, d), found). (config_of dur, rw (load, found, a, b, c, d) refl, refl),
  )
