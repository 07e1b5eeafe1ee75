-- ===== src/Core/Config.antt =====
-- The configuration of crates/lnxdrive-core/src/config.rs: its records, their default values and the
-- builder. A `PathBuf` is its text; the directories of the user are a parameter. Reading YAML is left out.
use lnxdrive.Prelude.{ℕ, Bool, true, Option, none, some, ◌++◌, Text, codes}
pub mod Validation
pub mod Builder
pub mod Accepted

pub record SyncConfig : Type 0 where
  pub root : Text
  pub poll_interval : ℕ
  pub debounce_delay : ℕ

pub record RateLimitingConfig : Type 0 where
  pub delta_requests_per_minute : ℕ
  pub upload_concurrent : ℕ
  pub upload_requests_per_minute : ℕ
  pub download_concurrent : ℕ
  pub metadata_requests_per_minute : ℕ

pub record LargeFilesConfig : Type 0 where
  pub threshold_mb : ℕ
  pub chunk_size_mb : ℕ
  pub max_concurrent_large : ℕ

pub record ConflictsConfig : Type 0 where
  pub default_strategy : Text

pub record LoggingConfig : Type 0 where
  pub level : Text
  pub file : Text
  pub max_size_mb : ℕ
  pub max_files : ℕ

pub record AuthConfig : Type 0 where
  pub app_id : Option Text

pub record FuseConfig : Type 0 where
  pub mount_point : Text
  pub auto_mount : Bool
  pub cache_dir : Text
  pub cache_max_size_gb : ℕ
  pub dehydration_threshold_percent : ℕ
  pub dehydration_max_age_days : ℕ
  pub dehydration_interval_minutes : ℕ
  pub hydration_concurrency : ℕ

pub record Config : Type 0 where
  pub sync : SyncConfig
  pub rate_limiting : RateLimitingConfig
  pub large_files : LargeFilesConfig
  pub conflicts : ConflictsConfig
  pub logging : LoggingConfig
  pub auth : AuthConfig
  pub fuse : FuseConfig

-- The home directory and the directory for data, where the system knows them.
pub record Directories : Type 0 where
  pub home_dir : Option Text
  pub data_local_dir : Option Text

abbrev unwrap_or : Option Text → Text → Text
unwrap_or none s = s
unwrap_or (some s) t = s

unfoldable pub sync_default : Directories → SyncConfig
sync_default dirs = record {
  root = unwrap_or dirs.home_dir (codes "~") ++ codes "/OneDrive";
  poll_interval = 30;
  debounce_delay = 2;
}

unfoldable pub rate_limiting_default : RateLimitingConfig
rate_limiting_default = record {
  delta_requests_per_minute = 10;
  upload_concurrent = 4;
  upload_requests_per_minute = 60;
  download_concurrent = 8;
  metadata_requests_per_minute = 100;
}

unfoldable pub large_files_default : LargeFilesConfig
large_files_default = record { threshold_mb = 100; chunk_size_mb = 10; max_concurrent_large = 1 }

unfoldable pub conflicts_default : ConflictsConfig
conflicts_default = record { default_strategy = codes "manual" }

unfoldable pub logging_default : Directories → LoggingConfig
logging_default dirs = record {
  level = codes "info";
  file = unwrap_or dirs.data_local_dir (codes "~/.local/share") ++ codes "/lnxdrive/lnxdrive.log";
  max_size_mb = 50;
  max_files = 5;
}

unfoldable pub auth_default : AuthConfig
auth_default = record { app_id = none }

unfoldable pub fuse_default : FuseConfig
fuse_default = record {
  mount_point = codes "~/OneDrive";
  auto_mount = true;
  cache_dir = codes "~/.local/share/lnxdrive/cache";
  cache_max_size_gb = 10;
  dehydration_threshold_percent = 80;
  dehydration_max_age_days = 30;
  dehydration_interval_minutes = 60;
  hydration_concurrency = 8;
}

unfoldable pub config_default : Directories → Config
unfolding sync_default rate_limiting_default large_files_default conflicts_default logging_default
    auth_default fuse_default
config_default dirs = record {
  sync = sync_default dirs;
  rate_limiting = rate_limiting_default;
  large_files = large_files_default;
  conflicts = conflicts_default;
  logging = logging_default dirs;
  auth = auth_default;
  fuse = fuse_default;
}
