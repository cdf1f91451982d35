-- ===== src/Store/Gallery/Listing.antt =====
-- The pages of the gallery are its rows in order.
use mathlib.Core.Path.{subst}
use event_gallery.Base.{
  ℕ, suc, ◌≡◌, ◌≤◌, sym, ap, ◌∙◌, Bool, true, false, ◌&&◌, Option, none, some, String, List, [],
  ◌∷◌, length, take, select, All, All-mono, str_eq, arith,
}
use event_gallery.Store.Media.{MediaItem, is_visible, Db}
use event_gallery.Store.Gallery.{
  GallerySort, SortOrder, cursor_at, comes_before, order_by, cut, with_cursor, is_past, page,
  list_gallery,
}
use event_gallery.Store.Gallery.Sorting.{
  Sorted, Comparable, select-select, select-Comparable, order_by-Sorted, order_by-select,
  length-select, length-order_by, order_by-counts,
}
use event_gallery.Store.Gallery.Pages.{past, follow, key_of_row, follow-rows}
use event_gallery.Store.Gallery.Order.{IsOrder}
use event_gallery.Store.Gallery.Positions.{
  comes_before_irrefl, comes_before_trans, comes_before_total,
}

-- The primary key of the table.
abbrev pub DistinctIds : List MediaItem → Type 0
DistinctIds [] = Unit
DistinctIds (m ∷ ms) = All (λ x. str_eq m.id x.id ≡ false) ms × DistinctIds ms

module _ (less : String → String → Bool) (o : SortOrder) (sort : GallerySort) where
  abbrev pub row_before : MediaItem → MediaItem → Bool
  row_before x y = comes_before less o (cursor_at sort x) (cursor_at sort y)

  -- The rows that a listing admits, in its order.
  abbrev pub listed : (MediaItem → Bool) → List MediaItem → List MediaItem
  listed admits ms = order_by row_before (select admits ms)

  -- A client sees the rows of a listing when it sees them sorted, each as often as it stands there.
  pub Shows : (MediaItem → Bool) → List MediaItem → List MediaItem → Type 0
  Shows admits ms seen =
      (seen ≡ listed admits ms)
      × Sorted row_before seen
      × ((p : MediaItem → Bool) → length (select p seen) ≡ length (select p (select admits ms)))

  module _ (order : IsOrder less) where
    row_trans :
        (x y z : MediaItem) → row_before x y ≡ true → row_before y z ≡ true → row_before x z ≡ true
    row_trans x y z h k =
        comes_before_trans less order o (cursor_at sort x) (cursor_at sort y) (cursor_at sort z) h k

    row_irrefl : (x : MediaItem) → row_before x x ≡ false
    row_irrefl x = comes_before_irrefl less order o (cursor_at sort x)

    DistinctIds-Comparable : (ms : List MediaItem) → DistinctIds ms → Comparable row_before ms
    DistinctIds-Comparable [] h = tt
    DistinctIds-Comparable (m ∷ ms) h = (
      All-mono ms (λ x e. comes_before_total less order o (cursor_at sort m) (cursor_at sort x) e)
          h.0,
      DistinctIds-Comparable ms h.1,
    )

    module _ (admits : MediaItem → Bool) (ms : List MediaItem) (distinct : DistinctIds ms)
        (limit : ℕ) where
      admitted : Comparable row_before (select admits ms)
      admitted = select-Comparable row_before admits ms (DistinctIds-Comparable ms distinct)

      past_key :
          (c : Option MediaItem)
          → select
              (λ m.
                admits m
                && is_past (comes_before less o) (cursor_at sort) (key_of_row (cursor_at sort) c) m)
              ms
            ≡ select (past row_before c) (select admits ms)
      past_key none = sym (select-select admits (past row_before none) ms)
      past_key (some c) = sym (select-select admits (past row_before (some c)) ms)

      -- A page is a cut of the listed rows past its cursor.
      page-turns :
          (c : Option MediaItem)
          → page
              (comes_before less o)
              (cursor_at sort)
              admits
              limit
              (key_of_row (cursor_at sort) c)
              ms
            ≡ with_cursor
                (cursor_at sort)
                (cut limit (take (suc limit) (select (past row_before c) (listed admits ms))))
      unfolding page
      page-turns c =
          ap (λ rows. with_cursor (cursor_at sort) (cut limit (take (suc limit) rows)))
            (ap (λ rows. order_by row_before rows) (past_key c)
              ∙ order_by-select row_before row_trans (past row_before c) (select admits ms)
                  admitted)

      pub page-Shows :
          (fuel : ℕ)
          → 1 ≤ limit
          → length ms ≤ fuel
          → Shows admits ms (
              follow (λ c. page (comes_before less o) (cursor_at sort) admits limit c ms) fuel none)
      unfolding Shows
      page-Shows fuel one enough =
          let sorted = order_by-Sorted row_before row_trans (select admits ms) admitted in
          let size = length-order_by row_before (select admits ms) in
          let fewer = length-select admits ms in
          let all =
            follow-rows row_before row_irrefl row_trans (cursor_at sort) limit (listed admits ms)
              (λ c. page (comes_before less o) (cursor_at sort) admits limit c ms) page-turns fuel
              one sorted (omega arith) in
          (
            all,
            subst (Sorted row_before) (sym all) sorted,
            λ p.
                ap (λ r. length (select p r)) all ∙ order_by-counts row_before p (select admits ms),
          )

-- A client of the gallery that asks for the first page and then for the page of every cursor it gets,
-- as often as there are items, sees exactly the items that are active and approved: sorted by the sort
-- key and then by the id in the direction asked for, none skipped and none twice. Texts compare by a
-- strict total order, a page shows one item or more, ids are distinct, and no item changes meanwhile.
pub list_gallery-Shows :
    (less : String → String → Bool) (sort : GallerySort) (o : SortOrder) (limit fuel : ℕ) (db : Db)
    → IsOrder less
    → DistinctIds db.media
    → 1 ≤ limit
    → length db.media ≤ fuel
    → Shows less o sort is_visible db.media
        (follow (λ c. list_gallery less sort o limit c db) fuel none)
unfolding list_gallery
list_gallery-Shows less sort o limit fuel db order distinct one enough =
    page-Shows less o sort order is_visible db.media distinct limit fuel one enough
