-- ===== src/Core/Config/Validation.antt =====
-- `Config::validate` of crates/lnxdrive-core/src/config.rs, section by section. Whether a directory
-- exists is a parameter.
use lnxdrive.Prelude.{
  ℕ, Bool, false, not, ◌&&◌, ◌||◌, if◌then◌else◌, ◌==◌, ltb, List, [], ◌∷◌, ◌++◌, Text, codes,
  text_eq, starts_with, decimal,
}
use lnxdrive.Core.Config.{
  Config, SyncConfig, RateLimitingConfig, LargeFilesConfig, ConflictsConfig, LoggingConfig,
  FuseConfig,
}

pub record ValidationError : Type 0 where
  pub field : Text
  pub message : Text

-- An error for each condition that holds.
unfoldable pub errors_of : List (Bool × ValidationError) → List ValidationError
errors_of [] = []
errors_of ((wrong, e) ∷ checks) = let rest = errors_of checks in if wrong then e ∷ rest else rest

abbrev pub not_zero : ℕ → Text → Bool × ValidationError
not_zero n field = (n == 0, record { field = field; message = codes "must be greater than 0" })

abbrev pub is_one_of : Text → List Text → Bool
is_one_of s [] = false
is_one_of s (t ∷ ts) = text_eq s t || is_one_of s ts

abbrev pub valid_log_levels : List Text
valid_log_levels = codes "trace" ∷ codes "debug" ∷ codes "info" ∷ codes "warn" ∷ codes "error" ∷ []

abbrev pub valid_conflict_strategies : List Text
valid_conflict_strategies =
    codes "manual" ∷ codes "keep_local" ∷ codes "keep_remote" ∷ codes "keep_both" ∷ []

-- `join(", ")`
abbrev joined : List Text → Text
joined [] = []
joined (s ∷ []) = s
joined (s ∷ t ∷ ts) = s ++ (codes ", " ++ joined (t ∷ ts))

unfoldable pub sync_errors : (Text → Bool) → SyncConfig → List ValidationError
unfolding errors_of
sync_errors exists c = errors_of (
    not_zero c.poll_interval (codes "sync.poll_interval")
    ∷ not_zero c.debounce_delay (codes "sync.debounce_delay")
    ∷ (
      not (starts_with c.root (codes "~")) && not (exists c.root),
      record { field = codes "sync.root"; message = codes "directory does not exist: " ++ c.root },
    )
    ∷ [])

unfoldable pub rate_limiting_errors : RateLimitingConfig → List ValidationError
unfolding errors_of
rate_limiting_errors c = errors_of (
    not_zero c.delta_requests_per_minute (codes "rate_limiting.delta_requests_per_minute")
    ∷ not_zero c.upload_concurrent (codes "rate_limiting.upload_concurrent")
    ∷ not_zero c.upload_requests_per_minute (codes "rate_limiting.upload_requests_per_minute")
    ∷ not_zero c.download_concurrent (codes "rate_limiting.download_concurrent")
    ∷ not_zero c.metadata_requests_per_minute (codes "rate_limiting.metadata_requests_per_minute")
    ∷ [])

unfoldable pub large_files_errors : LargeFilesConfig → List ValidationError
unfolding errors_of
large_files_errors c = errors_of (
    not_zero c.chunk_size_mb (codes "large_files.chunk_size_mb")
    ∷ not_zero c.threshold_mb (codes "large_files.threshold_mb")
    ∷ (
      ltb c.threshold_mb c.chunk_size_mb,
      record {
        field = codes "large_files.chunk_size_mb";
        message =
            codes "chunk_size_mb ("
            ++ (decimal c.chunk_size_mb
                ++ (codes ") must not exceed threshold_mb ("
                    ++ (decimal c.threshold_mb ++ codes ")")));
      },
    )
    ∷ not_zero c.max_concurrent_large (codes "large_files.max_concurrent_large")
    ∷ [])

unfoldable pub conflicts_errors : ConflictsConfig → List ValidationError
unfolding errors_of
conflicts_errors c = errors_of (
    (
      not (is_one_of c.default_strategy valid_conflict_strategies),
      record {
        field = codes "conflicts.default_strategy";
        message =
            codes "invalid strategy '"
            ++ (c.default_strategy
                ++ (codes "'; valid options: " ++ joined valid_conflict_strategies));
      },
    )
    ∷ [])

unfoldable pub logging_errors : LoggingConfig → List ValidationError
unfolding errors_of
logging_errors c = errors_of (
    (
      not (is_one_of c.level valid_log_levels),
      record {
        field = codes "logging.level";
        message =
            codes "invalid level '"
            ++ (c.level ++ (codes "'; valid options: " ++ joined valid_log_levels));
      },
    )
    ∷ not_zero c.max_size_mb (codes "logging.max_size_mb")
    ∷ not_zero c.max_files (codes "logging.max_files")
    ∷ [])

unfoldable pub fuse_errors : FuseConfig → List ValidationError
unfolding errors_of
fuse_errors c = errors_of (
    not_zero c.cache_max_size_gb (codes "fuse.cache_max_size_gb")
    ∷ (
      c.dehydration_threshold_percent == 0 || ltb 100 c.dehydration_threshold_percent,
      record {
        field = codes "fuse.dehydration_threshold_percent";
        message = codes "must be in range 1..=100";
      },
    )
    ∷ (
      c.hydration_concurrency == 0 || ltb 32 c.hydration_concurrency,
      record {
        field = codes "fuse.hydration_concurrency";
        message = codes "must be in range 1..=32";
      },
    )
    ∷ not_zero c.dehydration_interval_minutes (codes "fuse.dehydration_interval_minutes")
    ∷ [])

unfoldable pub validate : (Text → Bool) → Config → List ValidationError
validate exists self =
    sync_errors exists self.sync
    ++ (rate_limiting_errors self.rate_limiting
        ++ (large_files_errors self.large_files
            ++ (conflicts_errors self.conflicts
                ++ (logging_errors self.logging ++ fuse_errors self.fuse))))
