-- ===== src/Config/Load.antt =====
-- internal/config/config.go: the defaults, and Load with the file, the environment and the frame
-- library's own configuration as parameters.
pub mod Laws
use thesa.Prelude.{
  ℕ, ◌*◌, Bool, true, false, Option, none, some, List, [], ◌∷◌, ◌++◌, is_empty, if◌then◌else◌,
}
use thesa.Prelude.Int.{ℤ, pos}
use thesa.Prelude.Text.{Text, codes}
use thesa.Prelude.Maps.{Map}
use thesa.Errors.{Result, ok, Error, error_text, wrap_error, ◌>>=◌}
use thesa.Config.{ServiceConfig, validate}

pub record CorsConfig : Type 0 where
  pub allowed_origins : List Text
  pub allowed_methods : List Text
  pub allowed_headers : List Text
  pub max_age : ℤ

pub record ServerConfig : Type 0 where
  pub port : ℤ
  pub read_timeout : ℤ
  pub write_timeout : ℤ
  pub handler_timeout : ℤ
  pub shutdown_timeout : ℤ
  pub cors : CorsConfig

pub record DefinitionsConfig : Type 0 where
  pub directories : List Text
  pub hot_reload : Bool
  pub strict_checksums : Bool

pub record SpecSource : Type 0 where
  pub service_id : Text
  pub spec_file : Text

pub record SpecsConfig : Type 0 where
  pub directory : Text
  pub sources : List SpecSource

pub record CacheConfig : Type 0 where
  pub ttl : ℤ
  pub max_entries : ℤ

pub record SearchConfig : Type 0 where
  pub timeout_per_provider : ℤ
  pub max_results_per_provider : ℤ

pub record TracingConfig : Type 0 where
  pub enabled : Bool
  pub exporter : Text
  pub endpoint : Text
  pub sampling_rate : ℕ
  pub force_sample_errors : Bool

pub record MetricsConfig : Type 0 where
  pub enabled : Bool
  pub path : Text

pub record ObservabilityConfig : Type 0 where
  pub log_level : Text
  pub tracing : TracingConfig
  pub metrics : MetricsConfig

-- `F` is the embedded configuration of the frame library; CapabilityConfig and LookupCacheConfig
-- hold a CacheConfig each.
pub record Config (F : Type 0) : Type 0 where
  pub frame : F
  pub server : ServerConfig
  pub definitions : DefinitionsConfig
  pub specs : SpecsConfig
  pub services : Map ServiceConfig
  pub capability_cache : CacheConfig
  pub search : SearchConfig
  pub lookup_cache : CacheConfig
  pub observability : ObservabilityConfig

-- time.Second, in nanoseconds.
abbrev seconds : ℕ → ℤ
seconds n = pos (n * 1000000000)

-- `frame` is the zero value; 0x3fb999999999999a are the bits of 0.1.
abbrev pub defaults : {F : Type 0} → F → Config F
defaults frame = record {
  frame = frame;
  server = record {
    port = pos 8080;
    read_timeout = seconds 30;
    write_timeout = seconds 30;
    handler_timeout = seconds 25;
    shutdown_timeout = seconds 30;
    cors = record {
      allowed_origins = [];
      allowed_methods =
          codes "GET"
          ∷ codes "POST"
          ∷ codes "PUT"
          ∷ codes "PATCH"
          ∷ codes "DELETE"
          ∷ codes "OPTIONS"
          ∷ [];
      allowed_headers =
          codes "Authorization"
          ∷ codes "Content-Type"
          ∷ codes "X-Partition-Id"
          ∷ codes "X-Correlation-Id"
          ∷ codes "X-Idempotency-Key"
          ∷ [];
      max_age = pos 86400;
    };
  };
  definitions = record {
    directories = codes "/definitions" ∷ [];
    hot_reload = false;
    strict_checksums = true;
  };
  specs = record { directory = codes "/specs"; sources = [] };
  services = [];
  capability_cache = record { ttl = seconds 300; max_entries = pos 10000 };
  search = record { timeout_per_provider = seconds 3; max_results_per_provider = pos 50 };
  lookup_cache = record { ttl = seconds 300; max_entries = pos 1000 };
  observability = record {
    log_level = codes "info";
    tracing = record {
      enabled = false;
      exporter = codes "otlp";
      endpoint = [];
      sampling_rate = 0x3fb999999999999a;
      force_sample_errors = false;
    };
    metrics = record { enabled = true; path = codes "/metrics" };
  };
}

abbrev pub wrapped : Text → Error → Text
wrapped what e = codes "config: " ++ (what ++ (codes ": " ++ error_text e))

abbrev pub checked : {F : Type 0} → Config F → Result (Config F)
checked cfg = wrap_error (wrapped (codes "validation")) (validate cfg.server.port) >>= λ u. ok cfg

-- `scan_int` is fmt.Sscanf with %d; `none` is its error.
module _ {F : Type 0} (getenv : Text → Text) (scan_int : Text → Option ℤ) where
  abbrev pub with_port : Option ℤ → Config F → Config F
  with_port none cfg = cfg
  with_port (some port) cfg = record cfg { server = record cfg.server { port = port } }

  abbrev with_log_level : Text → Config F → Config F
  with_log_level level cfg = record cfg {
    observability = record cfg.observability { log_level = level };
  }

  abbrev pub override_port : Config F → Config F
  override_port cfg =
      if is_empty (getenv (codes "THESA_SERVER_PORT"))
      then cfg
      else with_port (scan_int (getenv (codes "THESA_SERVER_PORT"))) cfg

  unfoldable pub apply_env_overrides : Config F → Config F
  apply_env_overrides cfg =
      if is_empty (getenv (codes "THESA_OBSERVABILITY_LOG_LEVEL"))
      then override_port cfg
      else with_log_level (getenv (codes "THESA_OBSERVABILITY_LOG_LEVEL")) (override_port cfg)

  -- `read_file` is os.ReadFile, `unmarshal` yaml.Unmarshal onto a value, `fill_env` and
  -- `discover` what the frame library does to its own part; discovery is left out where there is
  -- no service URI.
  module _ (read_file : Text → Result Text) (unmarshal : Text → Config F → Result (Config F))
      (fill_env : F → Result F) (service_uri : F → Text) (discover : F → Result F) where
    abbrev pub discovered : F → Result F
    discovered frame =
        if is_empty (service_uri frame)
        then ok frame
        else wrap_error (wrapped (codes "oidc discovery")) (discover frame)

    abbrev pub parsed : F → Text → Result (Config F)
    parsed frame path =
        wrap_error (wrapped (codes "reading " ++ path)) (read_file path) >>= (λ data'.
          wrap_error (wrapped (codes "parsing " ++ path)) (unmarshal data' (defaults frame)))

    abbrev pub framed : F → Result F
    framed frame =
        wrap_error (wrapped (codes "frame env")) (fill_env frame) >>= (λ filled. discovered filled)

    abbrev pub finish : Config F → F → Result (Config F)
    finish cfg frame = checked (apply_env_overrides (record cfg { frame = frame }))

    unfoldable pub load : F → Text → Result (Config F)
    load frame path =
        parsed frame path >>= (λ cfg. framed cfg.frame >>= (λ found. finish cfg found))
