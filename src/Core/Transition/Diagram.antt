-- ===== src/Core/Transition/Diagram.antt =====
-- The state diagram of an item as a relation, and that the transitions follow it.
use lnxdrive.Prelude.{◌≡◌, ◌↔◌, refl, true, false, Text, ok, err, arith, ◌⊎◌}
use lnxdrive.Core.Error.{invalid_state}
use lnxdrive.Core.Time.{DateTime}
use lnxdrive.Core.ItemState.{
  ItemState, online, hydrating, hydrated, pinned, modified, conflicted, error, deleted, is_deleted,
  name,
}
use lnxdrive.Core.SyncItem.{SyncItem}
use lnxdrive.Core.Transition.{can_transition, transition_to}

infix 40 ◌⟶◌
pub data ◌⟶◌ : ItemState → ItemState → Type 0 where
  access : online ⟶ hydrating
  remove_placeholder : online ⟶ deleted
  download : hydrating ⟶ hydrated
  download_pinned : hydrating ⟶ pinned
  edit : hydrated ⟶ modified
  keep : hydrated ⟶ pinned
  free : hydrated ⟶ online
  remove : hydrated ⟶ deleted
  release : pinned ⟶ hydrated
  edit_pinned : pinned ⟶ modified
  remove_pinned : pinned ⟶ deleted
  upload : modified ⟶ hydrated
  upload_pinned : modified ⟶ pinned
  clash : modified ⟶ conflicted
  resolve : conflicted ⟶ hydrated
  resolve_pinned : conflicted ⟶ pinned
  fail : {s : ItemState} (reason : Text) → is_deleted s ≡ false → s ⟶ error reason
  retry : (reason : Text) (t : ItemState) → error reason ⟶ t

ruleset edges = (
  access, remove_placeholder, download, download_pinned, edit, keep, free, remove, release,
  edit_pinned, remove_pinned, upload, upload_pinned, clash, resolve, resolve_pinned, fail, retry,
)

edge_of_test : (s t : ItemState) → can_transition s t ≡ true → s ⟶ t
unfolding can_transition
edge_of_test online t h = grind (arith, edges)
edge_of_test hydrating t h = grind (arith, edges)
edge_of_test hydrated t h = grind (arith, edges)
edge_of_test pinned t h = grind (arith, edges)
edge_of_test modified t h = grind (arith, edges)
edge_of_test conflicted t h = grind (arith, edges)
edge_of_test (error reason) t h = retry reason t
edge_of_test deleted t h = ground arith

test_of_edge : {s t : ItemState} → s ⟶ t → can_transition s t ≡ true
unfolding can_transition
test_of_edge (fail {s} reason live) = grind arith
test_of_edge (retry reason t) = refl
test_of_edge access = refl
test_of_edge _ = refl

-- The test of the code is the diagram.
pub can_transition_iff : (s t : ItemState) → (can_transition s t ≡ true) ↔ (s ⟶ t)
can_transition_iff s t = (edge_of_test s t, test_of_edge)

-- `transition_to` succeeds exactly along an edge of the diagram, and then the item is in the target
-- state; without an edge the item stays as it was and the error names the two states.
pub transition_to_iff :
    (self : SyncItem) (target : ItemState) (now : DateTime)
    → ((transition_to self target now).1 ≡ ok tt) ↔ (self.state ⟶ target)
unfolding transition_to
transition_to_iff self target now =
    (λ h. edge_of_test self.state target (ground arith), λ e. ground (arith, test_of_edge e))

pub transition_to_effect :
    (self : SyncItem) (target : ItemState) (now : DateTime)
    → (((transition_to self target now).1 ≡ ok tt)
        × ((transition_to self target now).0.state ≡ target))
      ⊎ (transition_to self target now
          ≡ (self, err (invalid_state (name self.state) (name target))))
unfolding transition_to
transition_to_effect self target now = ground arith
