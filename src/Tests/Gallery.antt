-- ===== src/Tests/Gallery.antt =====
-- The gallery at two photos.
use event_gallery.Base.{◌≡◌, refl, none, some, [], ◌∷◌, map, arith}
use event_gallery.Store.Media.{MediaItem, Db, is_visible, is_trashed}
use event_gallery.Store.Gallery.{
  GallerySort, SortOrder, list_gallery, page, order_by, insert_by, cut, comes_before, precedes,
  key_of,
}
use event_gallery.Store.Gallery.Order.{text_less, text_less-IsOrder}
use event_gallery.Store.Gallery.Pages.{follow}
use event_gallery.Store.Gallery.Listing.{Shows, DistinctIds, list_gallery-Shows}
use event_gallery.Tests.Protocol.{photo}

abbrev shown : MediaItem
shown = record photo { approved_at = some "2026-01-01T00:00:01Z" }

abbrev newer : MediaItem
newer = record shown { id = "m2"; sha256 = "bb"; uploaded_at = "2026-01-02T00:00:00Z" }

abbrev gallery : Db
gallery = record { jobs = []; media = shown ∷ newer ∷ []; config = []; audit = [] }

distinct : DistinctIds (gallery.media)
distinct = ((refl, tt), (tt, tt))

newest_first :
    map
      (λ (m : MediaItem). m.id)
      (list_gallery text_less GallerySort.uploaded SortOrder.desc 1 none gallery).0
    ≡ "m2" ∷ []
unfolding list_gallery page order_by insert_by cut comes_before precedes key_of text_less is_visible
    is_trashed
newest_first = refl

list_gallery-Shows_example :
    Shows text_less SortOrder.desc GallerySort.uploaded is_visible gallery.media
      (follow (λ c. list_gallery text_less GallerySort.uploaded SortOrder.desc 1 c gallery) 2 none)
list_gallery-Shows_example =
    list_gallery-Shows text_less GallerySort.uploaded SortOrder.desc 1 2 gallery text_less-IsOrder
      distinct (omega arith) (omega arith)
