-- ===== src/Core/Config/Accepted.antt =====
-- Which configurations `validate` of crates/lnxdrive-core/src/config.rs accepts.
use lnxdrive.Prelude.{
  ◌≤◌, ◌<◌, ◌≡◌, ◌↔◌, ◌⊎◌, inl, inr, refl, Bool, Bool-cases, text_eq, true, false, not, ◌&&◌, List,
  [], ◌∷◌, ◌++◌, Text, codes, text_eq_iff, text_eq→eq, starts_with, arith,
}
use lnxdrive.Core.Config.{
  Config, SyncConfig, RateLimitingConfig, LargeFilesConfig, ConflictsConfig, LoggingConfig,
  FuseConfig,
}
use lnxdrive.Core.Config.Validation.{
  ValidationError, sync_errors, rate_limiting_errors, large_files_errors, conflicts_errors,
  logging_errors, fuse_errors, validate, is_one_of, valid_log_levels, valid_conflict_strategies,
}

abbrev pub IsOneOf : Text → List Text → Type 0
IsOneOf s [] = ⊥
IsOneOf s (t ∷ ts) = (s ≡ t) ⊎ IsOneOf s ts

is_one_of_iff : (s : Text) (ts : List Text) → (is_one_of s ts ≡ true) ↔ IsOneOf s ts
is_one_of_iff s [] = (λ h. ground arith, λ h. absurd h)
is_one_of_iff s (t ∷ ts) = elim (Bool-cases (text_eq s t)) [
  | inl e ↦ (λ h. inl (text_eq→eq s t e), λ h. rw e refl)
  | inr e ↦ (
    λ h. inr ((is_one_of_iff s ts).0 (ground arith)),
    λ h. elim h [
      | inl same ↦ ground (arith, text_eq_iff s t)
      | inr later ↦ ground (arith, (is_one_of_iff s ts).1 later)
    ],
  )
]

-- What each section has to satisfy.
pub record IsValid (exists : Text → Bool) (c : Config) : Type 0 where
  pub polls : 0 < c.sync.poll_interval
  pub debounces : 0 < c.sync.debounce_delay
  pub has_root : (starts_with c.sync.root (codes "~") ≡ true) ⊎ (exists c.sync.root ≡ true)
  pub delta_rate : 0 < c.rate_limiting.delta_requests_per_minute
  pub uploads : 0 < c.rate_limiting.upload_concurrent
  pub upload_rate : 0 < c.rate_limiting.upload_requests_per_minute
  pub downloads : 0 < c.rate_limiting.download_concurrent
  pub metadata_rate : 0 < c.rate_limiting.metadata_requests_per_minute
  pub has_chunks : 0 < c.large_files.chunk_size_mb
  pub chunk_in_threshold : c.large_files.chunk_size_mb ≤ c.large_files.threshold_mb
  pub large_uploads : 0 < c.large_files.max_concurrent_large
  pub strategy :
      IsOneOf c.conflicts.default_strategy
        (codes "manual" ∷ codes "keep_local" ∷ codes "keep_remote" ∷ codes "keep_both" ∷ [])
  pub level :
      IsOneOf c.logging.level
        (codes "trace" ∷ codes "debug" ∷ codes "info" ∷ codes "warn" ∷ codes "error" ∷ [])
  pub log_size : 0 < c.logging.max_size_mb
  pub log_files : 0 < c.logging.max_files
  pub cache_size : 0 < c.fuse.cache_max_size_gb
  pub percent_low : 1 ≤ c.fuse.dehydration_threshold_percent
  pub percent_high : c.fuse.dehydration_threshold_percent ≤ 100
  pub hydration_low : 1 ≤ c.fuse.hydration_concurrency
  pub hydration_high : c.fuse.hydration_concurrency ≤ 32
  pub interval : 0 < c.fuse.dehydration_interval_minutes

append_empty : (xs ys : List ValidationError) → (xs ++ ys ≡ []) ↔ ((xs ≡ []) × (ys ≡ []))
append_empty [] ys = (λ h. (refl, h), λ h. h.1)
append_empty (x ∷ xs) ys = (λ h. ground arith, λ h. ground arith)

neither : (a b : Bool) → (not a && not b) ≡ false → (a ≡ true) ⊎ (b ≡ true)
neither true b h = inl refl
neither false b h = inr (ground arith)

either : (a b : Bool) → (a ≡ true) ⊎ (b ≡ true) → (not a && not b) ≡ false
either a b h = ground arith

sync_errors_iff :
    (exists : Text → Bool) (c : SyncConfig)
    → (sync_errors exists c ≡ []) ↔ (
        (0 < c.poll_interval)
        × (0 < c.debounce_delay)
        × ((starts_with c.root (codes "~") ≡ true) ⊎ (exists c.root ≡ true)))
unfolding sync_errors
sync_errors_iff exists c = (
  λ h. (ground arith, ground arith, neither _ _ (ground arith)),
  λ h. ground (arith, either (starts_with c.root (codes "~")) (exists c.root) h.2),
)

rate_limiting_errors_iff :
    (c : RateLimitingConfig)
    → (rate_limiting_errors c ≡ []) ↔ (
        (0 < c.delta_requests_per_minute)
        × (0 < c.upload_concurrent)
        × (0 < c.upload_requests_per_minute)
        × (0 < c.download_concurrent)
        × (0 < c.metadata_requests_per_minute))
unfolding rate_limiting_errors
rate_limiting_errors_iff c = (λ h. ground arith, λ h. ground arith)

large_files_errors_iff :
    (c : LargeFilesConfig)
    → (large_files_errors c ≡ [])
      ↔ ((0 < c.chunk_size_mb) × (c.chunk_size_mb ≤ c.threshold_mb) × (0 < c.max_concurrent_large))
unfolding large_files_errors
large_files_errors_iff c = (λ h. ground arith, λ h. ground arith)

conflicts_errors_iff :
    (c : ConflictsConfig)
    → (conflicts_errors c ≡ []) ↔ IsOneOf c.default_strategy valid_conflict_strategies
unfolding conflicts_errors
conflicts_errors_iff c = (
  λ h. (is_one_of_iff c.default_strategy valid_conflict_strategies).0 (ground arith),
  λ h. rw ((is_one_of_iff c.default_strategy valid_conflict_strategies).1 h) refl,
)

logging_errors_iff :
    (c : LoggingConfig)
    → (logging_errors c ≡ [])
      ↔ (IsOneOf c.level valid_log_levels × (0 < c.max_size_mb) × (0 < c.max_files))
unfolding logging_errors
logging_errors_iff c = (
  λ h. ((is_one_of_iff c.level valid_log_levels).0 (ground arith), ground arith, ground arith),
  λ h. rw ((is_one_of_iff c.level valid_log_levels).1 h.0) (ground arith),
)

fuse_errors_iff :
    (c : FuseConfig)
    → (fuse_errors c ≡ []) ↔ (
        (0 < c.cache_max_size_gb)
        × (1 ≤ c.dehydration_threshold_percent)
        × (c.dehydration_threshold_percent ≤ 100)
        × (1 ≤ c.hydration_concurrency)
        × (c.hydration_concurrency ≤ 32)
        × (0 < c.dehydration_interval_minutes))
unfolding fuse_errors
fuse_errors_iff c = (λ h. ground arith, λ h. ground arith)

-- `validate` finds nothing wrong exactly in a valid configuration: rates, sizes and counts are not
-- zero, a chunk is no larger than the threshold, percentages and concurrency lie in their ranges,
-- strategy and level are known words, and the root starts with ~ or exists.
pub validate_iff : (exists : Text → Bool) (c : Config) → (validate exists c ≡ []) ↔ IsValid exists c
unfolding validate
validate_iff exists c = (
  λ h.
      let h0 = (append_empty _ _).0 h in
      let h1 = (append_empty _ _).0 h0.1 in
      let h2 = (append_empty _ _).0 h1.1 in
      let h3 = (append_empty _ _).0 h2.1 in
      let h4 = (append_empty _ _).0 h3.1 in
      let r = (sync_errors_iff exists c.sync).0 h0.0 in
      let l = (logging_errors_iff c.logging).0 h4.0 in
      let rates = (rate_limiting_errors_iff c.rate_limiting).0 h1.0 in
      let files = (large_files_errors_iff c.large_files).0 h2.0 in
      let fuse = (fuse_errors_iff c.fuse).0 h4.1 in
      record {
        polls = r.0;
        debounces = r.1;
        has_root = r.2;
        delta_rate = rates.0;
        uploads = rates.1;
        upload_rate = rates.2;
        downloads = rates.3;
        metadata_rate = rates.4;
        has_chunks = files.0;
        chunk_in_threshold = files.1;
        large_uploads = files.2;
        strategy = (conflicts_errors_iff c.conflicts).0 h3.0;
        level = l.0;
        log_size = l.1;
        log_files = l.2;
        cache_size = fuse.0;
        percent_low = fuse.1;
        percent_high = fuse.2;
        hydration_low = fuse.3;
        hydration_high = fuse.4;
        interval = fuse.5;
      },
  λ v.
      rw
        (
          (sync_errors_iff exists c.sync).1 (v.polls, v.debounces, v.has_root),
          (rate_limiting_errors_iff c.rate_limiting).1
              (v.delta_rate, v.uploads, v.upload_rate, v.downloads, v.metadata_rate),
          (large_files_errors_iff c.large_files).1
              (v.has_chunks, v.chunk_in_threshold, v.large_uploads),
          (conflicts_errors_iff c.conflicts).1 v.strategy,
          (logging_errors_iff c.logging).1 (v.level, v.log_size, v.log_files),
          (fuse_errors_iff c.fuse).1 (
            v.cache_size, v.percent_low, v.percent_high, v.hydration_low, v.hydration_high,
            v.interval,
          ),
        )
        refl,
)
