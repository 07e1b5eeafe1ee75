-- ===== src/Core/Error.antt =====
-- crates/lnxdrive-core/src/domain/errors.rs. The states of a refused transition are kept; the prose
-- that the other messages carry is dropped.
use lnxdrive.Prelude.{Text}

pub data DomainError : Type 0 where
  invalid_path invalid_email invalid_hash validation_failed path_not_in_sync_root : DomainError
  invalid_remote_path invalid_remote_id invalid_delta_token invalid_id : DomainError
  invalid_state : Text → Text → DomainError
