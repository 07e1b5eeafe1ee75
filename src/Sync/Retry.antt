-- ===== src/Sync/Retry.antt =====
-- `is_transient_error` and `with_retry` of crates/lnxdrive-sync/src/engine.rs. The loop over the
-- attempts 0 to 5 recurs on the retries that are left; the error after the loop cannot be reached.
use lnxdrive.Prelude.{
  ℕ, zero, suc, ◌+◌, ◌*◌, ◌^◌, Bool, true, false, ◌||◌, Text, codes, contains, Result, ok, err,
}
use lnxdrive.Sync.Ports.{Ports, M}
pub mod Schedule

abbrev pub max_retries : ℕ
max_retries = 5

abbrev pub base_delay_secs : ℕ
base_delay_secs = 1

module _ (ports : Ports) where
  unfoldable pub is_transient_error : Text → Bool
  is_transient_error rendering =
      let err_str = ports.to_lowercase rendering in
      contains err_str (codes "network")
      || contains err_str (codes "connection")
      || contains err_str (codes "timeout")
      || contains err_str (codes "dns")
      || contains err_str (codes "reset by peer")
      || contains err_str (codes "broken pipe")
      || contains err_str (codes "429")
      || contains err_str (codes "too many requests")
      || contains err_str (codes "rate limit")
      || contains err_str (codes "500")
      || contains err_str (codes "502")
      || contains err_str (codes "503")
      || contains err_str (codes "504")
      || contains err_str (codes "server error")

  -- The attempts from number `attempt` on, of which `left` may be followed by a retry.
  unfoldable pub retry_from : {A : Type 0} → ℕ → ℕ → M ports A → M ports A
  retry_from zero attempt f w = f w
  retry_from (suc left) attempt f w = elim (f w).1 [
    | ok value ↦ ((f w).0, ok value)
    | err e ↦ elim (is_transient_error e) [
      | true ↦ retry_from left (attempt + 1) f (ports.sleep (base_delay_secs * 2 ^ attempt) (f w).0)
      | false ↦ ((f w).0, err e)
    ]
  ]

  unfoldable pub with_retry : {A : Type 0} → M ports A → M ports A
  unfolding retry_from
  with_retry f = retry_from max_retries 0 f
