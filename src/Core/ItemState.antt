-- ===== src/Core/ItemState.antt =====
-- `ItemState` of crates/lnxdrive-core/src/domain/sync_item.rs: the hydration state of an item.
use lnxdrive.Prelude.{Bool, true, false, ◌++◌, Text, codes}

pub data ItemState : Type 0 where
  online hydrating hydrated pinned modified conflicted : ItemState
  error : Text → ItemState
  deleted : ItemState

abbrev pub is_error : ItemState → Bool
is_error (error reason) = true
is_error _ = false

abbrev pub is_deleted : ItemState → Bool
is_deleted deleted = true
is_deleted _ = false

abbrev pub is_hydrated : ItemState → Bool
is_hydrated hydrated = true
is_hydrated _ = false

unfoldable pub is_local : ItemState → Bool
is_local hydrated = true
is_local pinned = true
is_local modified = true
is_local _ = false

unfoldable pub is_placeholder : ItemState → Bool
is_placeholder online = true
is_placeholder _ = false

unfoldable pub is_transferring : ItemState → Bool
is_transferring hydrating = true
is_transferring _ = false

unfoldable pub needs_attention : ItemState → Bool
needs_attention conflicted = true
needs_attention (error reason) = true
needs_attention _ = false

unfoldable pub has_pending_changes : ItemState → Bool
has_pending_changes modified = true
has_pending_changes _ = false

unfoldable pub is_pinned : ItemState → Bool
is_pinned pinned = true
is_pinned _ = false

unfoldable pub can_dehydrate : ItemState → Bool
can_dehydrate hydrated = true
can_dehydrate _ = false

unfoldable pub name : ItemState → Text
name online = codes "Online"
name hydrating = codes "Hydrating"
name hydrated = codes "Hydrated"
name pinned = codes "Pinned"
name modified = codes "Modified"
name conflicted = codes "Conflicted"
name (error reason) = codes "Error"
name deleted = codes "Deleted"

unfoldable pub display : ItemState → Text
display online = codes "online"
display hydrating = codes "hydrating"
display hydrated = codes "hydrated"
display pinned = codes "pinned"
display modified = codes "modified"
display conflicted = codes "conflicted"
display (error reason) = codes "error: " ++ reason
display deleted = codes "deleted"
