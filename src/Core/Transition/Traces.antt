-- ===== src/Core/Transition/Traces.antt =====
-- What holds along any sequence of transitions.
use lnxdrive.Prelude.{
  ◌≡◌, refl, true, false, Bool, not, List, [], ◌∷◌, every, ok, err, arith, Result, ◌>>=◌,
  Result-cases, inl, inr,
}
use lnxdrive.Core.Error.{DomainError, invalid_state}
use lnxdrive.Core.Time.{DateTime}
use lnxdrive.Core.ItemState.{
  ItemState, online, hydrating, hydrated, pinned, modified, conflicted, error, deleted, is_deleted,
  name,
}
use lnxdrive.Core.SyncItem.{SyncItem}
use lnxdrive.Core.Transition.{Outcome, can_transition, transition_to}

-- The item after one transition, or the error.
abbrev settled_by : Outcome → Result DomainError SyncItem
settled_by (self, ok _) = ok self
settled_by (self, err e) = err e

-- Transitions in a row, up to the first that fails.
unfoldable pub run : SyncItem → List ItemState → DateTime → Result DomainError SyncItem
run self [] now = ok self
run self (target ∷ targets) now = do
  next ← settled_by (transition_to self target now)
  run next targets now

-- Local changes that are in no cloud version.
abbrev pub is_dirty : ItemState → Bool
is_dirty modified = true
is_dirty conflicted = true
is_dirty _ = false

-- The states in which the changes have been uploaded or the user has been told.
abbrev pub is_settled : ItemState → Bool
is_settled hydrated = true
is_settled pinned = true
is_settled (error reason) = true
is_settled _ = false

step_dirty :
    (self : SyncItem) (target : ItemState) (now : DateTime) {next : SyncItem}
    → is_dirty self.state ≡ true
    → is_settled target ≡ false
    → settled_by (transition_to self target now) ≡ ok next
    → is_dirty next.state ≡ true
unfolding transition_to can_transition
step_dirty self target now d u h = ground arith

-- Local changes are never dropped: however the transitions go, an item with changes that were not
-- uploaded still has them, as long as it was in no state that says they were uploaded or failed. It
-- cannot have been turned into a placeholder or deleted.
pub run_dirty :
    (self : SyncItem) (targets : List ItemState) (now : DateTime) {last : SyncItem}
    → is_dirty self.state ≡ true
    → every (λ t. not (is_settled t)) targets ≡ true
    → run self targets now ≡ ok last
    → is_dirty last.state ≡ true
unfolding run
run_dirty self [] now d u h = ground arith
run_dirty self (target ∷ targets) now d u h =
    elim (Result-cases (settled_by (transition_to self target now))) [
      | inl (next, e) ↦
          run_dirty next targets now (step_dirty self target now d (ground arith) e) (ground arith)
            (rw (e, ◌>>=◌) at h)
      | inr (x, e) ↦ absurd (ground arith)
    ]

-- A way to `hydrated` from every state but `deleted`.
abbrev pub way_to_hydrated : ItemState → List ItemState
way_to_hydrated online = hydrating ∷ hydrated ∷ []
way_to_hydrated hydrated = []
way_to_hydrated _ = hydrated ∷ []

run_one :
    (self : SyncItem) (target : ItemState) (now : DateTime)
    → can_transition self.state target ≡ true
    → (last : SyncItem) × (run self (target ∷ []) now ≡ ok last) × (last.state ≡ target)
unfolding run transition_to
run_one self target now h = ((transition_to self target now).0, ground arith, ground arith)

run_two :
    (self : SyncItem) (middle target : ItemState) (now : DateTime)
    → can_transition self.state middle ≡ true
    → can_transition middle target ≡ true
    → (last : SyncItem) × (run self (middle ∷ target ∷ []) now ≡ ok last) × (last.state ≡ target)
unfolding run transition_to
run_two self middle target now h k =
    let next = (transition_to self middle now).0 in
    ((transition_to next target now).0, ground arith, ground arith)

-- Every item that is not deleted can be brought to `hydrated`, by transitions that all succeed.
pub recoverable :
    (self : SyncItem) (now : DateTime)
    → is_deleted self.state ≡ false
    → (last : SyncItem) × (run self (way_to_hydrated self.state) now ≡ ok last)
      × (last.state ≡ hydrated)
recoverable self now h = from self.state refl
  where
    from :
        (s : ItemState)
        → self.state ≡ s
        → (last : SyncItem) × (run self (way_to_hydrated s) now ≡ ok last) × (last.state ≡ hydrated)
    from online e = unfold can_transition in run_two self hydrating hydrated now (ground arith) refl
    from hydrated e = (self, unfold run in refl, e)
    from deleted e = absurd (ground arith)
    from _ e = unfold can_transition in run_one self hydrated now (ground arith)

-- No transition leaves `deleted`.
pub deleted_final :
    (self : SyncItem) (target : ItemState) (targets : List ItemState) (now : DateTime)
    → self.state ≡ deleted
    → run self (target ∷ targets) now ≡ err (invalid_state (name deleted) (name target))
unfolding run transition_to can_transition
deleted_final self target targets now h = ground arith
