-- ===== src/Cache/States.antt =====
-- The text forms in which crates/lnxdrive-cache/src/repository.rs stores states.
use lnxdrive.Prelude.{
  ℕ, zero, suc, Bool, true, false, if◌then◌else◌, List, [], ◌∷◌, ◌++◌, Text, codes, text_eq,
  starts_with, Result, ok, err,
}
use lnxdrive.Core.Account
use lnxdrive.Core.Account.{AccountState}
use lnxdrive.Core.ItemState
use lnxdrive.Core.ItemState.{ItemState}
use lnxdrive.Core.Session.{SessionStatus}
use lnxdrive.Core.Session
pub mod RoundTrip

pub data CacheError : Type 0 where
  serialization_error : Text → CacheError

-- A slice `&s[n..]` behind an ASCII prefix of `n` characters.
abbrev pub skip : ℕ → Text → Text
skip zero s = s
skip (suc n) [] = []
skip (suc n) (c ∷ s) = skip n s

unfoldable pub item_state_to_string : ItemState → Text
item_state_to_string ItemState.online = codes "online"
item_state_to_string ItemState.hydrating = codes "hydrating"
item_state_to_string ItemState.hydrated = codes "hydrated"
item_state_to_string ItemState.pinned = codes "pinned"
item_state_to_string ItemState.modified = codes "modified"
item_state_to_string ItemState.conflicted = codes "conflicted"
item_state_to_string ItemState.deleted = codes "deleted"
item_state_to_string (ItemState.error msg) = codes "error:" ++ msg

unfoldable pub item_state_from_string : Text → Result CacheError ItemState
item_state_from_string s =
    if text_eq s (codes "online")
    then ok ItemState.online
    else if text_eq s (codes "hydrating")
    then ok ItemState.hydrating
    else if text_eq s (codes "hydrated")
    then ok ItemState.hydrated
    else if text_eq s (codes "pinned")
    then ok ItemState.pinned
    else if text_eq s (codes "modified")
    then ok ItemState.modified
    else if text_eq s (codes "conflicted")
    then ok ItemState.conflicted
    else if text_eq s (codes "deleted")
    then ok ItemState.deleted
    else if starts_with s (codes "error:")
    then ok (ItemState.error (skip 6 s))
    else err (serialization_error (codes "Unknown item state: " ++ s))

unfoldable pub account_state_to_string : AccountState → Text
account_state_to_string AccountState.active = codes "active"
account_state_to_string AccountState.token_expired = codes "token_expired"
account_state_to_string AccountState.suspended = codes "suspended"
account_state_to_string (AccountState.error msg) = codes "error:" ++ msg

unfoldable pub account_state_from_string : Text → Result CacheError AccountState
account_state_from_string s =
    if text_eq s (codes "active")
    then ok AccountState.active
    else if text_eq s (codes "token_expired")
    then ok AccountState.token_expired
    else if text_eq s (codes "suspended")
    then ok AccountState.suspended
    else if starts_with s (codes "error:")
    then ok (AccountState.error (skip 6 s))
    else err (serialization_error (codes "Unknown account state: " ++ s))

unfoldable pub session_status_to_string : SessionStatus → Text
session_status_to_string SessionStatus.running = codes "running"
session_status_to_string SessionStatus.completed = codes "completed"
session_status_to_string SessionStatus.cancelled = codes "cancelled"
session_status_to_string (SessionStatus.failed msg) = codes "failed:" ++ msg

unfoldable pub session_status_from_string : Text → Result CacheError SessionStatus
session_status_from_string s =
    if text_eq s (codes "running")
    then ok SessionStatus.running
    else if text_eq s (codes "completed")
    then ok SessionStatus.completed
    else if text_eq s (codes "cancelled")
    then ok SessionStatus.cancelled
    else if starts_with s (codes "failed:")
    then ok (SessionStatus.failed (skip 7 s))
    else err (serialization_error (codes "Unknown session status: " ++ s))
