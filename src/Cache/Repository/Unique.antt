-- ===== src/Cache/Repository/Unique.antt =====
-- The unique columns of `sync_items`, in crates/lnxdrive-cache/src/repository.rs.
use lnxdrive.Prelude.{
  ◌≡◌, Bool, true, not, Bool-cases, inl, inr, refl, Option, none, some, List, [], ◌∷◌, Text,
  text_eq, every, arith,
}
use lnxdrive.Core.Ids.{RemoteId}
use lnxdrive.Core.SyncPath.{
  PathBuf, path_eq, component_eq, Component, root_dir, cur_dir, parent_dir, normal,
}
use lnxdrive.Cache.Repository.{Row, select, clashes, same_remote}

-- No two rows share a value of a unique column.
abbrev pub IsUnique : List Row → Type 0
IsUnique [] = Unit
IsUnique (row ∷ rows) = (every (λ old. not (clashes row old)) rows ≡ true) × IsUnique rows

pub every_selected : (p : Row → Bool) (rows : List Row) → every p (select p rows) ≡ true
unfolding select
every_selected p [] = refl
every_selected p (r ∷ rows) = ground (arith, every_selected p rows)

pub every-select :
    (p q : Row → Bool) (rows : List Row) → every p rows ≡ true → every p (select q rows) ≡ true
unfolding select
every-select p q [] h = refl
every-select p q (r ∷ rows) h = ground (arith, every-select p q rows)

pub select-IsUnique : (q : Row → Bool) (rows : List Row) → IsUnique rows → IsUnique (select q rows)
unfolding select
select-IsUnique q [] u = tt
select-IsUnique q (r ∷ rows) u = elim (Bool-cases (q r)) [
  | inl e ↦ rw e (every-select _ q rows u.0, select-IsUnique q rows u.1)
  | inr e ↦ rw e (select-IsUnique q rows u.1)
]

text_eq_sym : (s t : Text) → text_eq s t ≡ text_eq t s
text_eq_sym [] [] = refl
text_eq_sym [] (d ∷ t) = refl
text_eq_sym (c ∷ s) [] = refl
text_eq_sym (c ∷ s) (d ∷ t) = ground (arith, text_eq_sym s t)

component_eq_sym : (c d : Component) → component_eq c d ≡ component_eq d c
component_eq_sym root_dir root_dir = refl
component_eq_sym root_dir cur_dir = refl
component_eq_sym root_dir parent_dir = refl
component_eq_sym root_dir (normal t) = refl
component_eq_sym cur_dir root_dir = refl
component_eq_sym cur_dir cur_dir = refl
component_eq_sym cur_dir parent_dir = refl
component_eq_sym cur_dir (normal t) = refl
component_eq_sym parent_dir root_dir = refl
component_eq_sym parent_dir cur_dir = refl
component_eq_sym parent_dir parent_dir = refl
component_eq_sym parent_dir (normal t) = refl
component_eq_sym (normal s) root_dir = refl
component_eq_sym (normal s) cur_dir = refl
component_eq_sym (normal s) parent_dir = refl
component_eq_sym (normal s) (normal t) = text_eq_sym s t

path_eq_sym : (p q : PathBuf) → path_eq p q ≡ path_eq q p
unfolding path_eq
path_eq_sym [] [] = refl
path_eq_sym [] (d ∷ q) = refl
path_eq_sym (c ∷ p) [] = refl
path_eq_sym (c ∷ p) (d ∷ q) = rw (component_eq_sym c d, path_eq_sym p q) refl

same_remote_sym : (a b : Option RemoteId) → same_remote a b ≡ same_remote b a
same_remote_sym none none = refl
same_remote_sym none (some b) = refl
same_remote_sym (some a) none = refl
same_remote_sym (some a) (some b) = text_eq_sym a.text b.text

pub clashes_sym : (a b : Row) → clashes a b ≡ clashes b a
clashes_sym a b = ground (
  arith,
  path_eq_sym a.item.local_path.path b.item.local_path.path,
  same_remote_sym a.item.remote_id b.item.remote_id,
)
