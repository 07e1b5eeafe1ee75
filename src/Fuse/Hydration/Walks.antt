-- ===== src/Fuse/Hydration/Walks.antt =====
-- `pin_recursive` and `unpin_recursive` of crates/lnxdrive-fuse/src/hydration.rs over the inode table.
use lnxdrive.Prelude.{
  ℕ, zero, suc, ◌≡◌, ◌==◌, ==_iff, refl, ap, ◌∙◌, true, false, Bool-cases, inl, inr, Text, none,
  some, is_some, List, [], ◌∷◌, ◌||◌, ◌&&◌, not, ltb, Bool,
}
use lnxdrive.Fuse.Hydration.{Hydrations}
use lnxdrive.Fuse.Hydration.Recursive.{
  Walk, Pins, walk, pin_recursive, unpin_recursive, pin_entry, then_pins, after_subdirectory,
  unpin_entry,
}
use lnxdrive.Core.Ids.{RemoteId}
use lnxdrive.Core.ItemState.{ItemState}
use lnxdrive.Core.Time.{DateTime}
use lnxdrive.Fuse.InodeEntry.{InodeEntry, FileType-cases, directory, regular_file}
use lnxdrive.Fuse.InodeTable.{InodeTable, children}

-- What a walk needs to end: every directory that it meets can be walked through.
abbrev ends : Walk → Bool
ends w = is_some w.1

abbrev pub is_directory : InodeEntry → Bool
is_directory entry = elim entry.kind [ directory ↦ true | regular_file ↦ false ]

-- Whether an inode is one of the directories among the entries.
abbrev pub any_directory : ℕ → List InodeEntry → Bool
any_directory ino [] = false
any_directory ino (entry ∷ entries) =
    (is_directory entry && entry.ino == ino) || any_directory ino entries

-- A directory among the entries is in the subtree, and less deep than the bound.
abbrev pub is_deeper : (ℕ → Bool) → (ℕ → ℕ) → ℕ → InodeEntry → Bool
is_deeper inside depth bound entry =
    not (is_directory entry) || (inside entry.ino && ltb (depth entry.ino) bound)

without : (w : Walk) → ends w ≡ false → w.1 ≡ none
without (self, none) h = refl
without (self, some pins) h = absurd (cc h)

ends-then_pins : (pins : Pins) (w : Walk) → ends (then_pins pins w) ≡ ends w
ends-then_pins pins (self, none) = refl
ends-then_pins pins (self, some more) = refl

module _ (subdirectory : Hydrations → ℕ → Walk)
    (file : Hydrations → InodeEntry → Hydrations × Pins) where
  abbrev rest_of : List InodeEntry → Hydrations → Walk
  rest_of entries next = walk subdirectory file next entries

  after_endless :
      (rest : Hydrations → Walk) (w : Walk)
      → ends w ≡ false
      → ends (after_subdirectory rest w) ≡ false
  after_endless rest (self, none) h = refl
  after_endless rest (self, some pins) h = absurd (cc h)

  rest_endless :
      (rest : Hydrations → Walk) (w : Walk)
      → ((self : Hydrations) → ends (rest self) ≡ false)
      → ends (after_subdirectory rest w) ≡ false
  rest_endless rest (self, none) all = refl
  rest_endless rest (self, some pins) all = ends-then_pins pins (rest self) ∙ all self

  -- A subdirectory that does not end stops the whole walk from ending.
  walk_endless :
      (ino : ℕ) (entries : List InodeEntry)
      → ((self : Hydrations) → ends (subdirectory self ino) ≡ false)
      → any_directory ino entries ≡ true
      → (self : Hydrations) → ends (walk subdirectory file self entries) ≡ false
  unfolding walk
  walk_endless ino [] endless h self = absurd (cc h)
  walk_endless ino (entry ∷ entries) endless h self = elim (FileType-cases entry.kind) [
    | inl d ↦ elim (Bool-cases (entry.ino == ino)) [
      | inl e ↦
          rw (walk, d)
            (after_endless (rest_of entries) (subdirectory self entry.ino)
              (ap (λ k. ends (subdirectory self k)) ((==_iff _ _).0 e) ∙ endless self))
      | inr e ↦
          rw (walk, d)
            (rest_endless (rest_of entries) (subdirectory self entry.ino)
              (walk_endless ino entries endless (rw (d, e) at h)))
    ]
    | inr d ↦
        rw (walk, d)
          (ends-then_pins (file self entry).1 (walk subdirectory file (file self entry).0 entries)
            ∙ walk_endless ino entries endless (rw d at h) (file self entry).0)
  ]

module _ (others : ℕ → Hydrations → Hydrations × List ℕ) (hash : RemoteId → Text)
    (state_text : ItemState → Text) (table : InodeTable) (now : DateTime) where
  pin_endless :
      (ino : ℕ)
      → any_directory ino (children table ino) ≡ true
      → (fuel : ℕ) (self : Hydrations)
      → ends (pin_recursive others hash state_text table now fuel self ino) ≡ false
  unfolding pin_recursive
  pin_endless ino h zero self = refl
  pin_endless ino h (suc fuel) self =
      walk_endless (pin_recursive others hash state_text table now fuel)
        (pin_entry others hash state_text now) ino (children table ino) (pin_endless ino h fuel) h
        self

  unpin_endless :
      (ino : ℕ)
      → any_directory ino (children table ino) ≡ true
      → (fuel : ℕ) (self : Hydrations) → ends (unpin_recursive table now fuel self ino) ≡ false
  unfolding unpin_recursive
  unpin_endless ino h zero self = refl
  unpin_endless ino h (suc fuel) self =
      walk_endless (unpin_recursive table now fuel) (unpin_entry now) ino (children table ino)
        (unpin_endless ino h fuel) h self

  -- Where a directory is among its own children, as the root is in the inode table, neither `pin_recursive` nor
  -- `unpin_recursive` of it returns, with however much fuel.
  pub recursion_endless :
      (ino fuel : ℕ) (self : Hydrations)
      → any_directory ino (children table ino) ≡ true
      → ((pin_recursive others hash state_text table now fuel self ino).1 ≡ none)
        × ((unpin_recursive table now fuel self ino).1 ≡ none)
  recursion_endless ino fuel self h = (
    without (pin_recursive others hash state_text table now fuel self ino)
        (pin_endless ino h fuel self),
    without (unpin_recursive table now fuel self ino) (unpin_endless ino h fuel self),
  )
