-- ===== src/Fuse/Maps.antt =====
-- Maps with numbers as keys, which stand for the `DashMap`s of crates/lnxdrive-fuse/src/inode.rs:
-- association lists in which an insertion replaces what the key had.
use lnxdrive.Prelude.{
  ℕ, ◌≡◌, ◌==◌, Bool-cases, if◌then◌else◌, Option, none, some, List, [], ◌∷◌, inl, inr, refl, arith,
}

module _ {ℓ} {A : Type ℓ} where
  abbrev pub map_option : (A → A) → Option A → Option A
  map_option f none = none
  map_option f (some a) = some (f a)

  unfoldable pub get : List (ℕ × A) → ℕ → Option A
  get [] k = none
  get ((k', a) ∷ m) k = let rest = get m k in if k' == k then some a else rest

  unfoldable pub remove : List (ℕ × A) → ℕ → List (ℕ × A)
  remove [] k = []
  remove ((k', a) ∷ m) k = let rest = remove m k in if k' == k then rest else (k', a) ∷ rest

  unfoldable pub insert : List (ℕ × A) → ℕ → A → List (ℕ × A)
  insert m k a = (k, a) ∷ remove m k

  -- A change of what the key has.
  unfoldable pub modify : List (ℕ × A) → ℕ → (A → A) → List (ℕ × A)
  modify [] k f = []
  modify ((k', a) ∷ m) k f =
      let rest = modify m k f in if k' == k then (k', f a) ∷ rest else (k', a) ∷ rest

  pub get-modify :
      (m : List (ℕ × A)) (k k' : ℕ) (f : A → A)
      → get (modify m k f) k' ≡ (if k == k' then map_option f (get m k') else get m k')
  unfolding get modify
  get-modify [] k k' f = elim (Bool-cases (k == k')) [ inl e ↦ rw e refl | inr e ↦ rw e refl ]
  get-modify ((l, a) ∷ m) k k' f = ground (arith, get-modify m k k' f)

  pub get-remove :
      (m : List (ℕ × A)) (k k' : ℕ) → get (remove m k) k' ≡ (if k == k' then none else get m k')
  unfolding get remove
  get-remove [] k k' = elim (Bool-cases (k == k')) [ inl e ↦ rw e refl | inr e ↦ rw e refl ]
  get-remove ((l, a) ∷ m) k k' = ground (arith, get-remove m k k')

  pub get-insert :
      (m : List (ℕ × A)) (k k' : ℕ) (a : A)
      → get (insert m k a) k' ≡ (if k == k' then some a else get m k')
  unfolding get insert
  get-insert m k k' a = ground (arith, get-remove m k k')
