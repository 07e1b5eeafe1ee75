-- ===== src/Examples/Records.antt =====
-- Sessions and conflicts.
use lnxdrive.Prelude.{refl, List, [], ◌∷◌, pos}
use lnxdrive.Core.Session.{SyncSession, with_id}
use lnxdrive.Core.Session.Counters
use lnxdrive.Core.Session.Counters.{
  AnyCall, other, progress, run_any, run_any-IsValid, success, failure, completion, successes,
  failures,
}

abbrev session : SyncSession
unfolding with_id
session = with_id 1 2 (pos 0)

session-IsValid : Counters.IsValid session
unfolding with_id
session-IsValid = record { split = refl; ended = refl }

abbrev calls : List AnyCall
calls = progress 3 2 1 refl ∷ other success ∷ other (completion (pos 9)) ∷ []

run_any-IsValid_example : Counters.IsValid (run_any session calls)
run_any-IsValid_example = run_any-IsValid session calls session-IsValid
