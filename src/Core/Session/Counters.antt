-- ===== src/Core/Session/Counters.antt =====
-- The counters of a session over any sequence of its methods.
use lnxdrive.Prelude.{ℕ, ◌+◌, ◌%◌, ◌<◌, ◌≡◌, is_some, List, [], ◌∷◌, Text, arith}
use lnxdrive.Core.Ids.{DeltaToken}
use lnxdrive.Core.Time.{DateTime}
use lnxdrive.Core.Session.{
  SyncSession, SessionError, is_finished, u64_mod, complete, fail, cancel, add_error,
  record_success, record_failure, set_items_total, add_bytes_uploaded, add_bytes_downloaded,
  set_delta_token_start, set_delta_token_end, set_items_checked, set_items_synced, update_progress,
}

-- The methods of a session that change it, but for `update_progress`.
pub data Call : Type 0 where
  success failure : Call
  completion cancellation : DateTime → Call
  fault : Text → DateTime → Call
  note : SessionError → Call
  total uploaded downloaded checked synced : ℕ → Call
  token_start token_end : DeltaToken → Call

unfoldable pub apply : SyncSession → Call → SyncSession
apply self success = record_success self
apply self failure = record_failure self
apply self (completion now) = complete self now
apply self (cancellation now) = cancel self now
apply self (fault reason now) = fail self reason now
apply self (note error) = add_error self error
apply self (total n) = set_items_total self n
apply self (uploaded n) = add_bytes_uploaded self n
apply self (downloaded n) = add_bytes_downloaded self n
apply self (checked n) = set_items_checked self n
apply self (synced n) = set_items_synced self n
apply self (token_start token) = set_delta_token_start self token
apply self (token_end token) = set_delta_token_end self token

unfoldable pub run : SyncSession → List Call → SyncSession
run self [] = self
run self (call ∷ calls) = run (apply self call) calls

abbrev is_success : Call → ℕ
is_success success = 1
is_success _ = 0

abbrev is_failure : Call → ℕ
is_failure failure = 1
is_failure _ = 0

abbrev pub successes : List Call → ℕ
successes [] = 0
successes (call ∷ calls) = is_success call + successes calls

abbrev pub failures : List Call → ℕ
failures [] = 0
failures (call ∷ calls) = is_failure call + failures calls

-- What holds of a session between two calls: the items processed are those that succeeded and those
-- that failed, and there is an end time exactly when the session is finished.
pub record IsValid (self : SyncSession) : Type 0 where
  pub split : self.items_processed ≡ (self.items_succeeded + self.items_failed) % u64_mod
  pub ended : is_some self.completed_at ≡ is_finished self.status

apply-IsValid : (self : SyncSession) (call : Call) → IsValid self → IsValid (apply self call)
unfolding apply record_success record_failure complete fail cancel add_error set_items_total
    add_bytes_uploaded add_bytes_downloaded set_delta_token_start set_delta_token_end
    set_items_checked set_items_synced
apply-IsValid self success v = ground arith
apply-IsValid self failure v = ground arith
apply-IsValid self call v = ground arith

-- With `update_progress`, of which only the calls are among them whose numbers add up.
pub data AnyCall : Type 0 where
  other : Call → AnyCall
  progress : (processed succeeded failed : ℕ) → processed ≡ (succeeded + failed) % u64_mod → AnyCall

unfoldable pub apply_any : SyncSession → AnyCall → SyncSession
apply_any self (other call) = apply self call
apply_any self (progress processed succeeded failed adds_up) =
    update_progress self processed succeeded failed

unfoldable pub run_any : SyncSession → List AnyCall → SyncSession
run_any self [] = self
run_any self (call ∷ calls) = run_any (apply_any self call) calls

apply_any-IsValid :
    (self : SyncSession) (call : AnyCall) → IsValid self → IsValid (apply_any self call)
unfolding apply_any update_progress
apply_any-IsValid self (other call) v = apply-IsValid self call v
apply_any-IsValid self (progress processed succeeded failed adds_up) v = ground arith

-- Any calls keep the invariant, where those of `update_progress` give as many processed as succeeded and failed.
pub run_any-IsValid :
    (self : SyncSession) (calls : List AnyCall) → IsValid self → IsValid (run_any self calls)
unfolding run_any
run_any-IsValid self [] v = v
run_any-IsValid self (call ∷ calls) v =
    run_any-IsValid (apply_any self call) calls (apply_any-IsValid self call v)

apply_counts :
    (self : SyncSession) (call : Call)
    → self.items_succeeded + is_success call < u64_mod
    → self.items_failed + is_failure call < u64_mod
    → ((apply self call).items_succeeded ≡ self.items_succeeded + is_success call)
      × ((apply self call).items_failed ≡ self.items_failed + is_failure call)
unfolding apply record_success record_failure complete fail cancel add_error set_items_total
    add_bytes_uploaded add_bytes_downloaded set_delta_token_start set_delta_token_end
    set_items_checked set_items_synced
apply_counts self success h k = ground arith
apply_counts self call h k = ground arith

-- The two outcome counters count the calls of `record_success` and `record_failure` exactly, as long
-- as they stay below 2^64.
pub run_counts :
    (self : SyncSession) (calls : List Call)
    → self.items_succeeded + successes calls < u64_mod
    → self.items_failed + failures calls < u64_mod
    → ((run self calls).items_succeeded ≡ self.items_succeeded + successes calls)
      × ((run self calls).items_failed ≡ self.items_failed + failures calls)
unfolding run
run_counts self [] h k = omega arith
run_counts self (call ∷ calls) h k =
    let now = apply_counts self call (omega arith) (omega arith) in
    omega (arith, now, run_counts (apply self call) calls (omega arith) (omega arith))
