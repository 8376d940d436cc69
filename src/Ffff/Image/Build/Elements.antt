-- ===== src/Ffff/Image/Build/Elements.antt =====
-- The elements in an image that `new_ffff_romimage` makes.
use bootrom_tools.Base.{
  ℕ, suc, ◌+◌, ◌-◌, ◌*◌, ◌^◌, ◌≤◌, ◌<◌, ◌≡◌, inl, inr, ◌∙◌, Bool, List, Option, some, arith, length,
  take, get_elem?, elim_some, elim_allocated, length-take,
}
use bootrom_tools.Files.{System, store}
use bootrom_tools.Files.Store.{store-IsAt}
use bootrom_tools.Util.Boundary.{next_boundary}
use bootrom_tools.Ffff.{Format}
use bootrom_tools.Ffff.Cache.{Entry, Cache, init_iterator}
use bootrom_tools.Ffff.Image.{Romimage, new_ffff}
use bootrom_tools.Ffff.Image.Build.{
  Layout, slot_at, slot_bytes, mark_end, finish_headers, new_ffff_romimage,
}
use bootrom_tools.Ffff.Image.Build.Slots.{IsTyped, slot_bytes-length, slot_before}
use bootrom_tools.Ffff.Image.Build.Loaded.{
  HasRoom, IsLoaded, IsEnded, IsLoaded-store, IsEnded-store,
}
use bootrom_tools.Ffff.Image.Build.Fills.{add_elements-IsLoaded}
use bootrom_tools.Ffff.Image.Build.Copies.{
  finish_headers-copies, copy_header-stores, outcome-filled,
}

module _ (sys : System) (fmt : Format) (layout : Layout) (typed : IsTyped sys fmt layout) where
  mark_end-IsEnded :
      (blob marked : List ℕ) (k : ℕ)
      → mark_end sys fmt layout blob k ≡ some marked
      → IsEnded sys fmt layout k marked
  unfolding mark_end
  mark_end-IsEnded blob marked k e =
      let (old, found, w) = elim_some (slot_bytes sys fmt layout blob k) _ e in
      let size = slot_bytes-length sys fmt layout blob k old found in
      let bytes = layout.with_type fmt.element_end old in
      record {
        bytes = bytes;
        size = typed.same_size fmt.element_end old ∙ size;
        marker = typed.type_of_end old size;
        placed = store-IsAt blob (slot_at sys fmt layout k) bytes marked w;
      }

  module _ (header_size n : ℕ) (small : header_size < 2 ^ 32)
      (tail : length fmt.ffff_sentinel_value ≤ header_size) (block : header_size ≤ n)
      (c : Cache sys)
      (room : HasRoom sys fmt layout (header_size - length fmt.ffff_sentinel_value) (2 * n) c) where
    table_end :
        (k : ℕ)
        → k ≤ c.current_element
        → slot_at sys fmt layout k + layout.element_size
          ≤ header_size - length fmt.ffff_sentinel_value
    table_end k h =
        omega
          (arith, slot_before sys fmt layout k (suc c.current_element) (omega arith), room.table)

    -- The tail sentinel and the second header leave the elements as they were.
    finish_headers-IsLoaded :
        (k : ℕ) (e : Entry sys) (blob final : List ℕ)
        → k < c.current_element
        → get_elem? c.entries k ≡ some e
        → finish_headers sys fmt layout header_size n blob ≡ some final
        → IsLoaded sys fmt layout k e blob
        → IsLoaded sys fmt layout k e final
    finish_headers-IsLoaded k e blob final h found f old =
        let (sealed, w, copy) = finish_headers-copies sys fmt layout header_size n blob final f in
        let (inside, w') = copy_header-stores n sealed final copy in
        let size = length-take n sealed in
        let table = table_end k (omega arith) in
        let behind = room.behind k e h found in
        IsLoaded-store sys fmt layout typed k e sealed n (take n sealed) final w'
          (inl (omega arith)) (inr (omega arith))
          (IsLoaded-store sys fmt layout typed k e blob _ fmt.ffff_sentinel_value sealed w
            (inl (omega arith)) (inr (omega arith)) old)

    finish_headers-IsEnded :
        (blob final : List ℕ)
        → finish_headers sys fmt layout header_size n blob ≡ some final
        → IsEnded sys fmt layout c.current_element blob
        → IsEnded sys fmt layout c.current_element final
    finish_headers-IsEnded blob final f old =
        let (sealed, w, copy) = finish_headers-copies sys fmt layout header_size n blob final f in
        let (inside, w') = copy_header-stores n sealed final copy in
        let table = table_end c.current_element (omega arith) in
        IsEnded-store sys fmt layout typed c.current_element sealed n (take n sealed) final w'
          (inl (omega arith))
          (IsEnded-store sys fmt layout typed c.current_element blob _ fmt.ffff_sentinel_value
            sealed w (inl (omega arith)) old)

  pub new_ffff_romimage-IsLoaded :
      (malloc_succeeds : Bool) (now : List ℕ) (max : ℕ) (name : Option (List ℕ))
      (capacity erase_block_size image_length generation header_size : ℕ) (c : Cache sys)
      (r : Romimage) (k : ℕ) (e : Entry sys)
      → header_size < 2 ^ 32
      → length fmt.ffff_sentinel_value ≤ header_size
      → header_size ≤ next_boundary header_size erase_block_size
      → HasRoom sys fmt layout
          (header_size - length fmt.ffff_sentinel_value)
          (2 * next_boundary header_size erase_block_size)
          c
      → c.current_element ≤ max
      → k < c.current_element
      → get_elem? c.entries k ≡ some e
      → new_ffff_romimage sys fmt layout malloc_succeeds now max name capacity erase_block_size
          image_length generation header_size c
        ≡ some (some r)
      → IsLoaded sys fmt layout k e r.blob × IsEnded sys fmt layout c.current_element r.blob
  unfolding new_ffff_romimage init_iterator
  new_ffff_romimage-IsLoaded malloc_succeeds now max name capacity erase_block_size image_length
        generation header_size c r k e small tail block room enough h found made =
      let n = next_boundary header_size erase_block_size in
      let (blank, _, e1) =
        elim_allocated (new_ffff malloc_succeeds image_length header_size erase_block_size) _
          made in
      let (text, _, e2) = elim_some name _ e1 in
      let (started, _, e3) = elim_some (store blank.blob 0 _) _ e2 in
      let (marked, m, e4) = elim_some (mark_end sys fmt layout started 0) _ e3 in
      let (status, blob, ended, good, f) =
        outcome-filled sys fmt layout header_size n blank r _ e4 in
      let (loaded, last) =
        add_elements-IsLoaded sys fmt layout typed _ _ c room max enough k e h found status blob
          good (c.current_element + 2) (2 ^ 32 - 1) marked (omega arith)
          (mark_end-IsEnded started marked 0 m) ended in
      (
        finish_headers-IsLoaded header_size n small tail block c room k e blob r.blob h found f
            loaded,
        finish_headers-IsEnded header_size n small tail block c room blob r.blob f last,
      )
