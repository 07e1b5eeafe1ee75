-- ===== src/Core/Config/Builder.antt =====
-- `ConfigBuilder` of crates/lnxdrive-core/src/config.rs: the setters, and the two ways to build.
use lnxdrive.Prelude.{ℕ, Bool, some, List, Text, Result, ok, err, is_empty, if◌then◌else◌}
use lnxdrive.Core.Config.{Config, Directories, config_default}
use lnxdrive.Core.Config.Validation.{ValidationError, validate}

pub record ConfigBuilder : Type 0 where
  pub config : Config

unfoldable pub new : Directories → ConfigBuilder
new dirs = record { config = config_default dirs }

unfoldable pub sync_root : ConfigBuilder → Text → ConfigBuilder
sync_root self value = record {
  config = record self.config { sync = record self.config.sync { root = value } };
}

unfoldable pub sync_poll_interval : ConfigBuilder → ℕ → ConfigBuilder
sync_poll_interval self value = record {
  config = record self.config { sync = record self.config.sync { poll_interval = value } };
}

unfoldable pub sync_debounce_delay : ConfigBuilder → ℕ → ConfigBuilder
sync_debounce_delay self value = record {
  config = record self.config { sync = record self.config.sync { debounce_delay = value } };
}

unfoldable pub rate_limiting_delta_requests_per_minute : ConfigBuilder → ℕ → ConfigBuilder
rate_limiting_delta_requests_per_minute self value = record {
  config = record self.config {
    rate_limiting = record self.config.rate_limiting { delta_requests_per_minute = value };
  };
}

unfoldable pub rate_limiting_upload_concurrent : ConfigBuilder → ℕ → ConfigBuilder
rate_limiting_upload_concurrent self value = record {
  config = record self.config {
    rate_limiting = record self.config.rate_limiting { upload_concurrent = value };
  };
}

unfoldable pub rate_limiting_upload_requests_per_minute : ConfigBuilder → ℕ → ConfigBuilder
rate_limiting_upload_requests_per_minute self value = record {
  config = record self.config {
    rate_limiting = record self.config.rate_limiting { upload_requests_per_minute = value };
  };
}

unfoldable pub rate_limiting_download_concurrent : ConfigBuilder → ℕ → ConfigBuilder
rate_limiting_download_concurrent self value = record {
  config = record self.config {
    rate_limiting = record self.config.rate_limiting { download_concurrent = value };
  };
}

unfoldable pub rate_limiting_metadata_requests_per_minute : ConfigBuilder → ℕ → ConfigBuilder
rate_limiting_metadata_requests_per_minute self value = record {
  config = record self.config {
    rate_limiting = record self.config.rate_limiting { metadata_requests_per_minute = value };
  };
}

unfoldable pub large_files_threshold_mb : ConfigBuilder → ℕ → ConfigBuilder
large_files_threshold_mb self value = record {
  config = record self.config {
    large_files = record self.config.large_files { threshold_mb = value };
  };
}

unfoldable pub large_files_chunk_size_mb : ConfigBuilder → ℕ → ConfigBuilder
large_files_chunk_size_mb self value = record {
  config = record self.config {
    large_files = record self.config.large_files { chunk_size_mb = value };
  };
}

unfoldable pub large_files_max_concurrent_large : ConfigBuilder → ℕ → ConfigBuilder
large_files_max_concurrent_large self value = record {
  config = record self.config {
    large_files = record self.config.large_files { max_concurrent_large = value };
  };
}

unfoldable pub conflicts_default_strategy : ConfigBuilder → Text → ConfigBuilder
conflicts_default_strategy self value = record {
  config = record self.config {
    conflicts = record self.config.conflicts { default_strategy = value };
  };
}

unfoldable pub logging_level : ConfigBuilder → Text → ConfigBuilder
logging_level self value = record {
  config = record self.config { logging = record self.config.logging { level = value } };
}

unfoldable pub logging_file : ConfigBuilder → Text → ConfigBuilder
logging_file self value = record {
  config = record self.config { logging = record self.config.logging { file = value } };
}

unfoldable pub logging_max_size_mb : ConfigBuilder → ℕ → ConfigBuilder
logging_max_size_mb self value = record {
  config = record self.config { logging = record self.config.logging { max_size_mb = value } };
}

unfoldable pub logging_max_files : ConfigBuilder → ℕ → ConfigBuilder
logging_max_files self value = record {
  config = record self.config { logging = record self.config.logging { max_files = value } };
}

unfoldable pub auth_app_id : ConfigBuilder → Text → ConfigBuilder
auth_app_id self value = record {
  config = record self.config { auth = record self.config.auth { app_id = some value } };
}

unfoldable pub fuse_mount_point : ConfigBuilder → Text → ConfigBuilder
fuse_mount_point self value = record {
  config = record self.config { fuse = record self.config.fuse { mount_point = value } };
}

unfoldable pub fuse_auto_mount : ConfigBuilder → Bool → ConfigBuilder
fuse_auto_mount self value = record {
  config = record self.config { fuse = record self.config.fuse { auto_mount = value } };
}

unfoldable pub fuse_cache_dir : ConfigBuilder → Text → ConfigBuilder
fuse_cache_dir self value = record {
  config = record self.config { fuse = record self.config.fuse { cache_dir = value } };
}

unfoldable pub fuse_cache_max_size_gb : ConfigBuilder → ℕ → ConfigBuilder
fuse_cache_max_size_gb self value = record {
  config = record self.config { fuse = record self.config.fuse { cache_max_size_gb = value } };
}

unfoldable pub fuse_dehydration_threshold_percent : ConfigBuilder → ℕ → ConfigBuilder
fuse_dehydration_threshold_percent self value = record {
  config = record self.config {
    fuse = record self.config.fuse { dehydration_threshold_percent = value };
  };
}

unfoldable pub fuse_dehydration_max_age_days : ConfigBuilder → ℕ → ConfigBuilder
fuse_dehydration_max_age_days self value = record {
  config = record self.config {
    fuse = record self.config.fuse { dehydration_max_age_days = value };
  };
}

unfoldable pub fuse_dehydration_interval_minutes : ConfigBuilder → ℕ → ConfigBuilder
fuse_dehydration_interval_minutes self value = record {
  config = record self.config {
    fuse = record self.config.fuse { dehydration_interval_minutes = value };
  };
}

unfoldable pub fuse_hydration_concurrency : ConfigBuilder → ℕ → ConfigBuilder
fuse_hydration_concurrency self value = record {
  config = record self.config { fuse = record self.config.fuse { hydration_concurrency = value } };
}

unfoldable pub build : ConfigBuilder → Config
build self = self.config

unfoldable pub build_validated :
    (Text → Bool) → ConfigBuilder → Result (List ValidationError) Config
unfolding build
build_validated exists self =
    let config = build self in
    let errors = validate exists config in if is_empty errors then ok config else err errors
