-- ===== src/Server/Settings.antt =====
-- `loadConfig` of main.go. `env` is os.Getenv, which gives the empty string for a variable that is not
-- set, and `atoi` is strconv.Atoi.
use token_bucket_rate_limite.Prelude.{
  String, str_eq, Option, none, some, ℤ, pos, mul64, if◌then◌else◌,
}
use token_bucket_rate_limite.Clock.{Duration}

pub record ServerConfig : Type 0 where
  pub addr : String
  pub backend : String
  pub redis_addr : String
  pub snapshot_path : String
  pub snapshot_interval : Duration

abbrev pub second : Duration
second = pos 1_000_000_000

abbrev pub five_seconds : Duration
five_seconds = pos 5_000_000_000

-- `if v := os.Getenv(name); v != ""`
unfoldable pub env_or : (String → String) → String → String → String
env_or env name default = if str_eq (env name) "" then default else env name

-- The interval: the default where the variable is not set, or is no number.
unfoldable pub load_interval : (String → String) → (String → Option ℤ) → Duration
unfolding mul64
load_interval env atoi =
    let v = env "SNAPSHOT_INTERVAL_SECS" in
    if str_eq v ""
    then five_seconds
    else elim (atoi v) [ none ↦ five_seconds | some secs ↦ mul64 secs second ]

unfoldable pub load_config : (String → String) → (String → Option ℤ) → ServerConfig
unfolding env_or load_interval
load_config env atoi = record {
  addr = env_or env "ADDR" ":8080";
  backend = env_or env "BACKEND" "memory";
  redis_addr = env_or env "REDIS_ADDR" "localhost:6379";
  snapshot_path = env_or env "SNAPSHOT_PATH" "state.json";
  snapshot_interval = load_interval env atoi;
}
