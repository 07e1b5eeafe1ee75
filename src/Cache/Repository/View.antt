-- ===== src/Cache/Repository/View.antt =====
-- What is read under each identifier after the statements of crates/lnxdrive-cache/src/repository.rs.
use lnxdrive.Prelude.{
  ◌≡◌, ◌==◌, ==_iff, ==_refl, if◌then◌else◌, Option, Bool, true, false, not, Bool-cases, inl, inr,
  refl, none, some, Option-cases, List, [], ◌∷◌, every, arith,
}
use lnxdrive.Core.Ids.{UniqueId}
use lnxdrive.Core.SyncItem.{SyncItem}
use lnxdrive.Cache.Repository.{Row, find, select, update, has_id, clashes}
use lnxdrive.Cache.Repository.Columns.{find_kept, find_holds, some_injective}
use lnxdrive.Cache.Repository.Unique.{IsUnique, clashes_sym, every_selected, select-IsUnique}

refuted : {t : Bool} → not t ≡ true → t ≡ false
refuted h = ground arith

negated : {t : Bool} → t ≡ false → not t ≡ true
negated h = rw h refl

find_missing :
    (p q : Row → Bool) (rows : List Row) → find p rows ≡ none → find p (select q rows) ≡ none
unfolding find select
find_missing p q [] h = refl
find_missing p q (r ∷ rows) h = elim (Bool-cases (p r)) [
  | inl e ↦ absurd (ground arith)
  | inr e ↦ elim (Bool-cases (q r)) [
    | inl d ↦ rw (d, find, e) (find_missing p q rows (ground arith))
    | inr d ↦ rw d (find_missing p q rows (ground arith))
  ]
]

-- The row of an identifier is the only one.
find_apart :
    (row : Row) (rows : List Row)
    → every (λ old. not (clashes row old)) rows ≡ true
    → find (has_id row.item.id) rows ≡ none
unfolding find
find_apart row [] h = refl
find_apart row (r ∷ rows) h = ground (arith, find_apart row rows)

find_gone :
    (q : Row → Bool) (k : UniqueId) (rows : List Row) (row : Row)
    → IsUnique rows
    → find (has_id k) rows ≡ some row
    → q row ≡ false
    → find (has_id k) (select q rows) ≡ none
unfolding find select
find_gone q k [] row u h d = ground arith
find_gone q k (r ∷ rows) row u h d = elim (Bool-cases (has_id k r)) [
  | inl e ↦
      let same : r ≡ row = cc (let h' : some r ≡ some row = ground arith in h') in
      let id : r.item.id ≡ k = (==_iff _ _).0 e in
      rw (same, d) (find_missing (has_id k) q rows (rw (← id) (find_apart r rows u.0)))
  | inr e ↦ elim (Bool-cases (q r)) [
    | inl c ↦ rw (c, find, e) (find_gone q k rows row u.1 (ground arith) d)
    | inr c ↦ rw c (find_gone q k rows row u.1 (ground arith) d)
  ]
]

every-test :
    (p q : Row → Bool) (rows : List Row) (row : Row)
    → every p rows ≡ true
    → find q rows ≡ some row
    → p row ≡ true
unfolding find
every-test p q [] row h found = ground arith
every-test p q (r ∷ rows) row h found = elim (Bool-cases (q r)) [
  | inl e ↦ let same : some r ≡ some row = ground arith in rw (← some_injective same) (ground arith)
  | inr e ↦ every-test p q rows row (ground arith) (ground arith)
]

-- The rows of two identifiers do not clash.
rows_apart :
    (i k : UniqueId) (rows : List Row) (a b : Row)
    → IsUnique rows
    → find (has_id i) rows ≡ some a
    → find (has_id k) rows ≡ some b
    → (i == k) ≡ false
    → clashes a b ≡ false
unfolding find
rows_apart i k [] a b u h d apart = ground arith
rows_apart i k (r ∷ rows) a b u h d apart = elim (Bool-cases (has_id i r)) [
  | inl e ↦ elim (Bool-cases (has_id k r)) [
    | inl f ↦
        let first : r.item.id ≡ i = (==_iff _ _).0 e in
        absurd (cc (let both : (i == k) ≡ true = rw (← first) f in both))
    | inr f ↦
        let same : some r ≡ some a = ground arith in
        let rest : find (has_id k) rows ≡ some b = ground arith in
        rw (← some_injective same)
          (refuted (every-test (λ old. not (clashes r old)) (has_id k) rows b u.0 rest))
  ]
  | inr e ↦ elim (Bool-cases (has_id k r)) [
    | inl f ↦
        let same : some r ≡ some b = ground arith in
        let rest : find (has_id i) rows ≡ some a = ground arith in
        rw (clashes_sym a b, ← some_injective same)
          (refuted (every-test (λ old. not (clashes r old)) (has_id i) rows a u.0 rest))
    | inr f ↦ rows_apart i k rows a b u.1 (ground arith) (ground arith) apart
  ]
]

abbrev pub unless_clashing : Row → Option Row → Option Row
unless_clashing new none = none
unless_clashing new (some old) = if clashes new old then none else some old

-- A save removes, of the other items, those whose rows clash.
pub find_saved :
    (new : Row) (k : UniqueId) (rows : List Row)
    → IsUnique rows
    → find (has_id k) (select (λ old. not (clashes new old)) rows)
      ≡ unless_clashing new (find (has_id k) rows)
find_saved new k rows u = elim (Option-cases (find (has_id k) rows)) [
  | inl none_there ↦ rw (find_missing (has_id k) _ rows none_there, none_there) refl
  | inr (b, found) ↦ elim (Bool-cases (clashes new b)) [
    | inl e ↦
        rw (find_gone (λ old. not (clashes new old)) k rows b u found (rw e refl), found, e) refl
    | inr e ↦ rw (find_kept (has_id k) _ rows b found (negated e), found, e) refl
  ]
]

-- The row that is written back for a row takes its place.
pub find_written :
    (row : Row) (id k : UniqueId) (rows : List Row)
    → IsUnique rows
    → find (has_id id) rows ≡ some row
    → (id == k) ≡ false
    → find (has_id k) (select (λ old. not (clashes row old)) rows) ≡ find (has_id k) rows
find_written row id k rows u there other = elim (Option-cases (find (has_id k) rows)) [
  | inl none_there ↦ rw (find_missing (has_id k) _ rows none_there, none_there) refl
  | inr (b, found) ↦
      let apart = rows_apart id k rows row b u there found other in
      rw (find_kept (has_id k) _ rows b found (negated apart), found) refl
]

pub saved-IsUnique :
    (new : Row) (rows : List Row)
    → IsUnique rows
    → IsUnique (new ∷ select (λ old. not (clashes new old)) rows)
saved-IsUnique new rows u = (every_selected _ rows, select-IsUnique _ rows u)

pub find_deleted :
    (id : UniqueId) (rows : List Row)
    → find (has_id id) (select (λ row. not (has_id id row)) rows) ≡ none
unfolding find select
find_deleted id [] = refl
find_deleted id (r ∷ rows) = elim (Bool-cases (has_id id r)) [
  | inl e ↦ rw e (find_deleted id rows)
  | inr e ↦ rw (e, find, e) (find_deleted id rows)
]

pub find_undeleted :
    (id k : UniqueId) (rows : List Row)
    → (id == k) ≡ false
    → find (has_id k) (select (λ row. not (has_id id row)) rows) ≡ find (has_id k) rows
find_undeleted id k rows other = elim (Option-cases (find (has_id k) rows)) [
  | inl none_there ↦ rw (find_missing (has_id k) _ rows none_there, none_there) refl
  | inr (b, found) ↦
      let at : b.item.id ≡ k = (==_iff _ _).0 (find_holds (has_id k) rows b found) in
      let apart : has_id id b ≡ false =
        (let swapped : (k == id) ≡ false = ground arith in rw at swapped) in
      rw (find_kept (has_id k) _ rows b found (negated apart), found) refl
]

-- The row of an identifier is the one that any test finds with that identifier.
pub find_unique :
    (p : Row → Bool) (rows : List Row) (row : Row)
    → IsUnique rows
    → find p rows ≡ some row
    → find (has_id row.item.id) rows ≡ some row
unfolding find
find_unique p [] row u h = ground arith
find_unique p (r ∷ rows) row u h = elim (Bool-cases (p r)) [
  | inl e ↦
      let same : some r ≡ some row = ground arith in
      rw (← some_injective same, ==_refl r.item.id) refl
  | inr e ↦
      let rest : find p rows ≡ some row = ground arith in
      let apart = every-test (λ old. not (clashes r old)) p rows row u.0 rest in
      let other : has_id row.item.id r ≡ false = ground arith in
      rw other (find_unique p rows row u.1 rest)
]

pub find-none :
    (p q : Row → Bool) (rows : List Row) (row : Row)
    → find p rows ≡ none
    → find q rows ≡ some row
    → p row ≡ false
unfolding find
find-none p q [] row h found = ground arith
find-none p q (r ∷ rows) row h found = elim (Bool-cases (q r)) [
  | inl e ↦ let same : some r ≡ some row = ground arith in rw (← some_injective same) (ground arith)
  | inr e ↦ find-none p q rows row (ground arith) (ground arith)
]

abbrev pub changed : (SyncItem → SyncItem) → Option Row → Option Row
changed f none = none
changed f (some row) = some (record row { item = f row.item })

pub find_updated :
    (f : SyncItem → SyncItem) (id : UniqueId) (rows : List Row)
    → ((item : SyncItem) → (f item).id ≡ item.id)
    → find (has_id id) (update f id rows) ≡ changed f (find (has_id id) rows)
unfolding find update
find_updated f id [] same = refl
find_updated f id (r ∷ rows) same = elim (Bool-cases (has_id id r)) [
  | inl e ↦ let kept : ((f r.item).id == id) ≡ true = rw (same r.item) e in rw (e, find, kept) refl
  | inr e ↦ rw (e, find, e) (find_updated f id rows same)
]

pub find_unchanged :
    (f : SyncItem → SyncItem) (id k : UniqueId) (rows : List Row)
    → ((item : SyncItem) → (f item).id ≡ item.id)
    → (id == k) ≡ false
    → find (has_id k) (update f id rows) ≡ find (has_id k) rows
unfolding find update
find_unchanged f id k [] same other = refl
find_unchanged f id k (r ∷ rows) same other = elim (Bool-cases (has_id id r)) [
  | inl e ↦
      let at : r.item.id ≡ id = (==_iff _ _).0 e in
      let before : (r.item.id == k) ≡ false = rw at other in
      let after : ((f r.item).id == k) ≡ false = rw (same r.item) before in
      rw (e, find, after, before) (find_unchanged f id k rows same other)
  | inr e ↦ elim (Bool-cases (has_id k r)) [
    | inl d ↦ rw (e, find, d) refl
    | inr d ↦ rw (e, find, d) (find_unchanged f id k rows same other)
  ]
]
