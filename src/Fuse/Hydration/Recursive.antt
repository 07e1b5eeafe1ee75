-- ===== src/Fuse/Hydration/Recursive.antt =====
-- `pin_recursive` and `unpin_recursive` of crates/lnxdrive-fuse/src/hydration.rs: walks through the inode table.
use lnxdrive.Prelude.{
  ℕ, zero, suc, true, false, Option, none, some, List, [], ◌∷◌, ◌++◌, Text, ok, err,
}
use lnxdrive.Core.Ids.{RemoteId}
use lnxdrive.Core.ItemState.{ItemState, hydrated, pinned, is_pinned}
use lnxdrive.Core.Time.{DateTime}
use lnxdrive.Fuse.InodeEntry.{InodeEntry, directory, regular_file}
use lnxdrive.Fuse.InodeTable
use lnxdrive.Fuse.InodeTable.{InodeTable}
use lnxdrive.Fuse.Hydration.{Hydrations, Answered, pin, unpin}

abbrev pub Pins : Type 0
Pins = List (ℕ × ItemState)

-- A walk through a directory, without a result where the fuel is used up.
abbrev pub Walk : Type 0
Walk = Hydrations × Option Pins

abbrev pub then_pins : Pins → Walk → Walk
then_pins pins (self, none) = (self, none)
then_pins pins (self, some more) = (self, some (pins ++ more))

-- The loop over the children of `pin_recursive` and of `unpin_recursive`: what a subdirectory gives, what a
-- file gives, and the rest.
abbrev pub after_subdirectory : (Hydrations → Walk) → Walk → Walk
after_subdirectory rest (self, none) = (self, none)
after_subdirectory rest (self, some pins) = then_pins pins (rest self)

abbrev after_file : (Hydrations → Walk) → Hydrations × Pins → Walk
after_file rest (self, pins) = then_pins pins (rest self)

unfoldable pub walk :
    (Hydrations → ℕ → Walk)
    → (Hydrations → InodeEntry → Hydrations × Pins)
    → Hydrations
    → List InodeEntry
    → Walk
walk subdirectory file self [] = (self, some [])
walk subdirectory file self (child ∷ children) = elim child.kind [
  | directory ↦
      after_subdirectory (λ next. walk subdirectory file next children)
        (subdirectory self child.ino)
  | regular_file ↦ after_file (λ next. walk subdirectory file next children) (file self child)
]

module _ (others : ℕ → Hydrations → Hydrations × List ℕ) (hash_remote_id : RemoteId → Text)
    (state_text : ItemState → Text) where
  abbrev pinned_file : ℕ → Answered → Hydrations × Pins
  pinned_file ino (next, ok _) = (next, (ino, pinned) ∷ [])
  pinned_file ino (next, err e) = (next, [])

  abbrev pub pin_entry : DateTime → Hydrations → InodeEntry → Hydrations × Pins
  pin_entry now self entry = elim entry.remote_id [
    | none ↦ (self, [])
    | some remote_id ↦ pinned_file entry.ino (
        pin others hash_remote_id state_text self now entry.ino entry.item_id remote_id entry.size
          entry.state)
  ]

  unfoldable pub pin_recursive : InodeTable → DateTime → ℕ → Hydrations → ℕ → Walk
  unfolding walk pin
  pin_recursive table now zero self parent_ino = (self, none)
  pin_recursive table now (suc fuel) self parent_ino =
      walk (pin_recursive table now fuel) (pin_entry now) self
        (InodeTable.children table parent_ino)

abbrev unpinned_file : ℕ → Answered → Hydrations × Pins
unpinned_file ino (next, ok _) = (next, (ino, hydrated) ∷ [])
unpinned_file ino (next, err e) = (next, [])

abbrev pub unpin_entry : DateTime → Hydrations → InodeEntry → Hydrations × Pins
unpin_entry now self entry = elim (is_pinned entry.state) [
  | false ↦ (self, [])
  | true ↦ unpinned_file entry.ino (unpin self now entry.item_id entry.state)
]

unfoldable pub unpin_recursive : InodeTable → DateTime → ℕ → Hydrations → ℕ → Walk
unfolding walk unpin
unpin_recursive table now zero self parent_ino = (self, none)
unpin_recursive table now (suc fuel) self parent_ino =
    walk (unpin_recursive table now fuel) (unpin_entry now) self
      (InodeTable.children table parent_ino)
