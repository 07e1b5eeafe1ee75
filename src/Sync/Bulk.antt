-- ===== src/Sync/Bulk.antt =====
-- Bulk mode of `SyncEngine` (crates/lnxdrive-sync/src/engine.rs): the settings of the engine and the
-- detection of large synchronisations.
use lnxdrive.Prelude.{
  ℕ, ◌*◌, ◌%◌, ◌^◌, ◌<◌, ◌≡◌, ◌↔◌, ◌⊎◌, Bool, true, false, not, ◌&&◌, ◌||◌, if◌then◌else◌, ltb,
  arith,
}

abbrev pub bulk_mode_threshold : ℕ
bulk_mode_threshold = 1000

abbrev pub bulk_mode_max_concurrent : ℕ
bulk_mode_max_concurrent = 4

abbrev pub bulk_mode_batch_delay_ms : ℕ
bulk_mode_batch_delay_ms = 2000

-- The fields of `SyncEngine` that are no port; the receiver of watcher events is never read.
pub record SyncEngine : Type 0 where
  pub large_file_threshold : ℕ
  pub bulk_mode : Bool

-- `SyncEngine::new` at the threshold of the configuration, in megabytes.
unfoldable pub new : ℕ → SyncEngine
new threshold_mb = record {
  large_file_threshold = threshold_mb * 1024 % 2 ^ 64 * 1024 % 2 ^ 64;
  bulk_mode = false;
}

unfoldable pub set_bulk_mode : SyncEngine → Bool → SyncEngine
set_bulk_mode self enabled = record self { bulk_mode = enabled }

unfoldable pub detect_bulk_mode : SyncEngine → Bool → ℕ → SyncEngine
detect_bulk_mode self has_delta_token item_count =
    let should_activate = not has_delta_token || ltb bulk_mode_threshold item_count in
    if should_activate && not self.bulk_mode
    then record self { bulk_mode = true }
    else if not should_activate && self.bulk_mode
    then record self { bulk_mode = false }
    else self

unfoldable pub max_concurrent_operations : SyncEngine → ℕ
max_concurrent_operations self = if self.bulk_mode then bulk_mode_max_concurrent else 8

-- In milliseconds.
unfoldable pub batch_delay : SyncEngine → ℕ
batch_delay self = if self.bulk_mode then bulk_mode_batch_delay_ms else 0

-- After the detection the engine is in bulk mode exactly on an initial synchronisation or above 1000
-- items, whatever it was before; then it runs 4 operations at once with a delay between batches, and
-- otherwise 8 without one.
pub detect_bulk_mode_lem :
    (self : SyncEngine) (has_delta_token : Bool) (item_count : ℕ)
    → let after = detect_bulk_mode self has_delta_token item_count in
      ((after.bulk_mode ≡ true) ↔ ((has_delta_token ≡ false) ⊎ (1000 < item_count)))
      × ((max_concurrent_operations after ≡ 4) ↔ (batch_delay after ≡ 2000))
      × ((after.bulk_mode ≡ true) ↔ (batch_delay after ≡ 2000))
      × (after.large_file_threshold ≡ self.large_file_threshold)
unfolding detect_bulk_mode max_concurrent_operations batch_delay
detect_bulk_mode_lem self has_delta_token item_count = (
  (λ h. ground arith, λ h. ground arith),
  (λ h. ground arith, λ h. ground arith),
  (λ h. ground arith, λ h. ground arith),
  ground arith,
)
