-- ===== src/Config.antt =====
-- config/config.go: the settings, how they are loaded, and the durations computed from them. An `int`
-- is kept as its 64-bit pattern.
pub mod Role
mod Tests
use advo_cache.Base.{
  ℕ, Bool, true, false, not, ◌⊎◌, inl, inr, Option, none, some, String, ◌==◌, text_key,
  if◌then◌else◌,
}
use advo_cache.Time.{Duration, second, minute, times}

pub record Config : Type 0 where
  pub port : String
  pub environment : String
  pub log_level : String
  pub cache_ttl_minutes : ℕ
  pub jitter_percent : ℕ
  pub cache_capacity : ℕ
  pub ttl_cleanup_seconds : ℕ
  pub lock_ttl_seconds : ℕ
  pub lock_cleanup_seconds : ℕ
  pub heartbeat_interval_seconds : ℕ
  pub heartbeat_timeout_seconds : ℕ
  pub leader_address : String
  pub role : String

abbrev pub cache_ttl : Config → Duration
cache_ttl c = times c.cache_ttl_minutes minute

abbrev pub get_cache_capacity : Config → ℕ
get_cache_capacity c = c.cache_capacity

abbrev pub ttl_cleanup_interval : Config → Duration
ttl_cleanup_interval c = times c.ttl_cleanup_seconds second

abbrev pub lock_ttl : Config → Duration
lock_ttl c = times c.lock_ttl_seconds second

abbrev pub lock_cleanup_interval : Config → Duration
lock_cleanup_interval c = times c.lock_cleanup_seconds second

abbrev pub heartbeat_interval : Config → Duration
heartbeat_interval c = times c.heartbeat_interval_seconds second

abbrev pub heartbeat_timeout : Config → Duration
heartbeat_timeout c = times c.heartbeat_timeout_seconds second

-- The defaults of LoadConfig, where neither the file nor the environment sets a value.
abbrev pub default_config : Config
default_config = record {
  port = ":8081";
  environment = "development";
  log_level = "info";
  cache_ttl_minutes = 15;
  jitter_percent = 20;
  cache_capacity = 10000;
  ttl_cleanup_seconds = 60;
  lock_ttl_seconds = 30;
  lock_cleanup_seconds = 5;
  heartbeat_interval_seconds = 5;
  heartbeat_timeout_seconds = 10;
  leader_address = "";
  role = "leader";
}

-- What viper does: whether it finds and reads the file, and the settings that it makes of the defaults,
-- the file and the environment, if their values are of the right types.
pub data FileRead : Type 0 where
  found missing unreadable : FileRead

pub record Viper : Type 0 where
  pub read_in_config : FileRead
  pub unmarshal : Config → Option Config

pub data LoadError : Type 0 where
  not_read not_decoded : LoadError

-- LoadConfig; the settings are AppConfig.
unfoldable pub load_config : Viper → Config ⊎ LoadError
load_config v = elim v.read_in_config [
  | unreadable ↦ inr not_read
  | missing ↦ elim (v.unmarshal default_config) [ none ↦ inr not_decoded | some c ↦ inl c ]
  | found ↦ elim (v.unmarshal default_config) [ none ↦ inr not_decoded | some c ↦ inl c ]
]

unfoldable pub is_development : Config → Bool
is_development c = c.environment == "development"

unfoldable pub is_production : Config → Bool
is_production c = c.environment == "production"

unfoldable pub is_replica : Config → Bool
is_replica c =
    if c.role == "replica"
    then true
    else if c.role == "leader"
    then false
    else not (c.leader_address == "")

unfoldable pub get_role : Config → String
get_role c =
    if not (c.role == "")
    then c.role
    else if not (c.leader_address == "")
    then "replica"
    else "leader"
