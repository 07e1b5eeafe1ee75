-- ===== src/Cache/States/RoundTrip.antt =====
-- The text forms of states in crates/lnxdrive-cache/src/repository.rs, read back.
use lnxdrive.Prelude.{◌≡◌, refl, ok}
use lnxdrive.Core.Account.{AccountState}
use lnxdrive.Core.ItemState.{ItemState}
use lnxdrive.Core.Session.{SessionStatus}
use lnxdrive.Cache.States.{
  item_state_to_string, item_state_from_string, account_state_to_string, account_state_from_string,
  session_status_to_string, session_status_from_string,
}

item_round_trip : (s : ItemState) → item_state_from_string (item_state_to_string s) ≡ ok s
unfolding item_state_to_string item_state_from_string
item_round_trip ItemState.online = refl
item_round_trip ItemState.hydrating = refl
item_round_trip ItemState.hydrated = refl
item_round_trip ItemState.pinned = refl
item_round_trip ItemState.modified = refl
item_round_trip ItemState.conflicted = refl
item_round_trip ItemState.deleted = refl
item_round_trip (ItemState.error msg) = refl

account_round_trip :
    (s : AccountState) → account_state_from_string (account_state_to_string s) ≡ ok s
unfolding account_state_to_string account_state_from_string
account_round_trip AccountState.active = refl
account_round_trip AccountState.token_expired = refl
account_round_trip AccountState.suspended = refl
account_round_trip (AccountState.error msg) = refl

session_round_trip :
    (s : SessionStatus) → session_status_from_string (session_status_to_string s) ≡ ok s
unfolding session_status_to_string session_status_from_string
session_round_trip SessionStatus.running = refl
session_round_trip SessionStatus.completed = refl
session_round_trip SessionStatus.cancelled = refl
session_round_trip (SessionStatus.failed msg) = refl

-- What is written for the state of an item, an account and a session, whatever the message of a
-- failure is, is read back as that state.
pub state_round_trip :
    (s : ItemState) (a : AccountState) (t : SessionStatus)
    → (item_state_from_string (item_state_to_string s) ≡ ok s)
      × (account_state_from_string (account_state_to_string a) ≡ ok a)
      × (session_status_from_string (session_status_to_string t) ≡ ok t)
state_round_trip s a t = (item_round_trip s, account_round_trip a, session_round_trip t)
