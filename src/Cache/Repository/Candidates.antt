-- ===== src/Cache/Repository/Candidates.antt =====
-- What `get_items_for_dehydration` returns, in crates/lnxdrive-cache/src/repository.rs.
use lnxdrive.Prelude.{ℕ, zero, suc, ◌≡◌, Bool, true, refl, List, [], ◌∷◌, every, arith}
use lnxdrive.Core.SyncItem.{SyncItem}
use lnxdrive.Core.Time.{DateTime}
use lnxdrive.Cache.Repository.{
  Repository, Row, sync_item_from_row, items_of, select, is_candidate, sort_rows, insert_row, limit,
  get_items_for_dehydration,
}
use lnxdrive.Cache.Repository.Unique.{every-select}

every_insert :
    (p : Row → Bool) (row : Row) (rows : List Row)
    → p row ≡ true
    → every p rows ≡ true
    → every p (insert_row row rows) ≡ true
unfolding insert_row
every_insert p row [] h k = ground arith
every_insert p row (other ∷ rows) h k = ground (arith, every_insert p row rows)

every_sort :
    (p : Row → Bool) (rows : List Row) → every p rows ≡ true → every p (sort_rows rows) ≡ true
unfolding sort_rows
every_sort p [] h = refl
every_sort p (row ∷ rows) h =
    every_insert p row (sort_rows rows) (ground arith) (every_sort p rows (ground arith))

every-limit :
    (p : Row → Bool) (n : ℕ) (rows : List Row) → every p rows ≡ true → every p (limit n rows) ≡ true
unfolding limit
every-limit p zero rows h = refl
every-limit p (suc n) [] h = refl
every-limit p (suc n) (row ∷ rows) h = ground (arith, every-limit p n rows)

every-items_of :
    (q : SyncItem → Bool) (rows : List Row)
    → every (λ row. q (sync_item_from_row row)) rows ≡ true
    → every q (items_of rows) ≡ true
unfolding items_of
every-items_of q [] h = refl
every-items_of q (row ∷ rows) h = ground (arith, every-items_of q rows)

-- What holds of every row, as it is read, holds of every candidate.
pub every_candidate :
    (q : SyncItem → Bool) (r : Repository) (cutoff : DateTime) (n : ℕ)
    → every (λ row. q (sync_item_from_row row)) r.rows ≡ true
    → every q (get_items_for_dehydration r cutoff n) ≡ true
unfolding get_items_for_dehydration
every_candidate q r cutoff n h =
    let p : Row → Bool = λ row. q (sync_item_from_row row) in
    let rows = select (is_candidate cutoff) r.rows in
    every-items_of q (limit n (sort_rows rows)) (
      every-limit p n (sort_rows rows)
        (every_sort p rows (every-select p (is_candidate cutoff) r.rows h)))
