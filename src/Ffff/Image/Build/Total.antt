-- ===== src/Ffff/Image/Build/Total.antt =====
-- What `new_ffff_romimage` makes of a cache that fits.
use bootrom_tools.Base.{
  ℕ, ◌+◌, ◌-◌, ◌*◌, ◌%◌, ◌^◌, ◌≤◌, ◌<◌, ◌≡◌, ◌≢◌, refl, ◌∙◌, true, List, Option, none, some, arith,
  leb, length, take, get_elem?, replicate, length-take, length-replicate, if◌then◌else◌, ◌==◌,
}
use bootrom_tools.Files.{System, store}
use bootrom_tools.Files.Store.{store_total, length-store}
use bootrom_tools.Util.Boundary.{next_boundary}
use bootrom_tools.Util.Text.{safer_strcpy, buffer_or_empty}
use bootrom_tools.Ffff.{Format}
use bootrom_tools.Ffff.Cache.{Entry, Cache, init_iterator}
use bootrom_tools.Ffff.Load.{Status, error, end_of_list, stored}
use bootrom_tools.Ffff.Image.{Romimage, new_ffff}
use bootrom_tools.Ffff.Image.Build.{
  Layout, filled, mark_end, copy_header, finish_headers, outcome, add_elements, new_ffff_romimage,
}
use bootrom_tools.Ffff.Image.Build.Slots.{IsTyped}
use bootrom_tools.Ffff.Image.Build.Loaded.{HasRoom, IsLoaded, IsEnded, entry_at, slot_inside}
use bootrom_tools.Ffff.Image.Build.Succeeds.{IsReadable, mark_end-succeeds, loop-Succeeds}
use bootrom_tools.Ffff.Image.Build.Elements.{new_ffff_romimage-IsLoaded}
use bootrom_tools.Ffff.Image.Build.Copies.{IsCopied, copy_header-inside, new_ffff_romimage-IsCopied}

copy_header_total :
    (n : ℕ) (blob : List ℕ)
    → 2 * n ≤ length blob
    → (copied : List ℕ) × (copy_header n blob ≡ some copied)
copy_header_total n blob room =
    let inside : leb n (length blob) ≡ true = ground (arith, room) in
    let (copied, w) = store_total blob n (take n blob) (omega (arith, length-take n blob)) in
    (copied, copy_header-inside n blob inside ∙ w)

module _ (sys : System) (fmt : Format) (layout : Layout) where
  finish_headers_total :
      (header_size n : ℕ) (blob : List ℕ)
      → header_size < 2 ^ 32
      → length fmt.ffff_sentinel_value ≤ header_size
      → header_size ≤ n
      → 2 * n ≤ length blob
      → (final : List ℕ) × (finish_headers sys fmt layout header_size n blob ≡ some final)
  unfolding finish_headers
  finish_headers_total header_size n blob small tail block room =
      let at = (header_size + 2 ^ 32 - length fmt.ffff_sentinel_value) % 2 ^ 32 in
      let (sealed, w) = store_total blob at fmt.ffff_sentinel_value (omega arith) in
      let same = length-store blob at fmt.ffff_sentinel_value sealed w in
      let (final, copied) = copy_header_total n sealed (omega arith) in
      (final, rw (finish_headers, w) copied)

  outcome_total :
      (header_size n : ℕ) (r : Romimage) (status : Status) (blob final : List ℕ)
      → status ≢ error
      → finish_headers sys fmt layout header_size n blob ≡ some final
      → outcome sys fmt layout header_size n r (filled status blob)
        ≡ some (some (record r { blob = final }))
  outcome_total header_size n r error blob final good f = absurd (good refl)
  outcome_total header_size n r end_of_list blob final good f = rw (outcome, f) refl
  outcome_total header_size n r stored blob final good f = rw (outcome, f) refl

  -- Every element lies in the image, in the table and at its location, with the end marker behind
  -- the last descriptor, and the second header is a copy of the first.
  pub record HoldsElements (c : Cache sys) (n : ℕ) (blob : List ℕ) : Type 0 where
    pub loaded :
        (k : ℕ) (e : Entry sys)
        → k < c.current_element
        → get_elem? c.entries k ≡ some e
        → IsLoaded sys fmt layout k e blob
    pub ended : IsEnded sys fmt layout c.current_element blob
    pub copied : IsCopied n blob

  module _ (typed : IsTyped sys fmt layout) (now : List ℕ) (max : ℕ) (text : List ℕ)
      (capacity erase_block_size image_length generation header_size : ℕ) (c : Cache sys)
      (small : header_size < 2 ^ 32) (tail : length fmt.ffff_sentinel_value ≤ header_size)
      (block : header_size ≤ next_boundary header_size erase_block_size)
      (room : HasRoom sys fmt layout
        (header_size - length fmt.ffff_sentinel_value)
        (2 * next_boundary header_size erase_block_size)
        c)
      (headers : 2 * next_boundary header_size erase_block_size ≤ image_length)
      (readable : (k : ℕ) (e : Entry sys)
        → k < c.current_element
        → get_elem? c.entries k ≡ some e
        → IsReadable sys fmt layout image_length e) where
    abbrev made : Option (Option Romimage)
    made =
        new_ffff_romimage sys fmt layout true now max (some text) capacity erase_block_size
          image_length generation header_size c

    abbrev blank : Romimage
    blank =
        let n = next_boundary header_size erase_block_size in
        record {
          blob_length = image_length;
          erase_block_length = erase_block_size;
          first_header = 0;
          second_header = if n == 0 then none else some n;
          blob = replicate image_length 0;
        }

    abbrev named : List ℕ
    named =
        buffer_or_empty
          (safer_strcpy (some (replicate layout.name_size 0)) layout.name_size (some text)).1

    abbrev start : List ℕ
    start =
        layout.start_bytes now named capacity erase_block_size header_size image_length generation

    made_steps :
        (started marked blob : List ℕ) (status : Status) (r : Romimage)
        → store blank.blob 0 start ≡ some started
        → mark_end sys fmt layout started 0 ≡ some marked
        → add_elements sys fmt layout (c.current_element + 2) max 0 (init_iterator sys c) marked
          ≡ filled status blob
        → outcome sys fmt layout header_size
            (next_boundary header_size erase_block_size)
            blank
            (filled status blob)
          ≡ some (some r)
        → made ≡ some (some r)
    unfolding new_ffff_romimage new_ffff
    made_steps started marked blob status r s m a o = rw (new_ffff_romimage, s, m, a) o

    made_total : (r : Romimage) × (made ≡ some (some r))
    unfolding init_iterator
    made_total =
        let n = next_boundary header_size erase_block_size in
        let size = length-replicate {A = ℕ} image_length 0 in
        let first = slot_inside sys fmt layout typed _ _ c room 0 (omega arith) in
        let order = room.in_order in
        let (started, s) = store_total blank.blob 0 start (
          omega (
            arith,
            typed.start_size now named capacity erase_block_size header_size image_length
                generation,
            size,
          )) in
        let start_length = length-store blank.blob 0 start started s in
        let (marked, m, mark_length, ended) =
          mark_end-succeeds sys fmt layout typed 0 started (omega arith) in
        let (status, blob, a, good, blob_length) =
          loop-Succeeds sys fmt layout typed _ _ c room max image_length (omega arith) readable
            (c.current_element + 2) 0 (2 ^ 32 - 1) marked (omega arith) (omega arith) (omega arith)
            (omega arith) ended in
        let (final, f) = finish_headers_total header_size n blob small tail block (omega arith) in
        (
          record blank { blob = final },
          made_steps started marked blob status _ s m a
              (outcome_total header_size n blank status blob final good f),
        )

    -- An image is made where the header has its fields, the header lies below its boundary and the
    -- table below its tail sentinel, both headers lie in the image, the payloads lie behind them,
    -- apart from each other and in the image, every file can be read whole, and there is at least
    -- one element and no more than fit. It holds every element: the descriptor in the table, and
    -- the content of the file at its location. The end marker stands behind the last descriptor,
    -- and the second header is a copy of the first.
    pub new_ffff_romimage-HoldsElements :
        c.current_element ≤ max
        → 0 < c.current_element
        → (r : Romimage) × (made ≡ some (some r))
          × HoldsElements c (next_boundary header_size erase_block_size) r.blob
    new_ffff_romimage-HoldsElements enough some_element =
        let (r, e) = made_total in
        let holds =
          new_ffff_romimage-IsLoaded sys fmt layout typed true now max (some text) capacity
            erase_block_size image_length generation header_size c r in
        let (first, found) = entry_at sys fmt layout typed _ _ c room 0 some_element in
        (
          r,
          e,
          record {
            loaded = λ k f h there. (holds k f small tail block room enough h there e).0;
            ended = (holds 0 first small tail block room enough some_element found e).1;
            copied =
                new_ffff_romimage-IsCopied sys fmt layout true now max (some text) capacity
                  erase_block_size image_length generation header_size c r e;
          },
        )
