-- ===== src/Ffff/Image/Build/Succeeds.antt =====
-- The loop of `new_ffff_romimage` succeeds where every file can be read into the image.
use bootrom_tools.Base.{
  ℕ, zero, suc, ◌+◌, ◌%◌, ◌^◌, ◌≤◌, ◌<◌, ◌≡◌, ◌≢◌, inl, inr, refl, sym, ap, ◌∙◌, true, false, List,
  some, arith, ltb, ◌==◌, length, get_elem?, Bool-cases, ltb_iff, ==_false,
}
use bootrom_tools.Files.{System, store, load_file}
use bootrom_tools.Files.Store.{IsAt, store-IsAt, IsAt-store, store_total, length-store}
use bootrom_tools.Ffff.{Format, Element}
use bootrom_tools.Ffff.Cache.{Entry, Cache}
use bootrom_tools.Ffff.Load.{
  Status, error, end_of_list, stored, advanced, entry_at_iterator, load_entry,
}
use bootrom_tools.Ffff.Image.Build.{
  Layout, Outcome, filled, slot_at, mark_end, next_into, next_slot, add_elements,
}
use bootrom_tools.Ffff.Image.Build.Slots.{
  IsTyped, slot_bytes_total, slot_bytes-IsAt, slot_bytes-length, next_slot-stays,
}
use bootrom_tools.Ffff.Image.Build.Payload.{next_into-found}
use bootrom_tools.Ffff.Image.Build.Loaded.{
  HasRoom, IsEnded, entry_at, entry_at_iterator-here, slot_inside, before_payload,
}
use bootrom_tools.Ffff.Image.Build.Ends.{added-step, next_into-past}

module _ (sys : System) (fmt : Format) (layout : Layout) where
  -- The file of an element can be read whole, and lies within the image.
  pub record IsReadable (image_length : ℕ) (e : Entry sys) : Type 0 where
    pub name : sys.FileName
    pub bytes : List ℕ
    pub named : e.filename ≡ some name
    pub read : load_file sys name e.element.element_length ≡ (bytes, true)
    pub whole : length bytes ≡ e.element.element_length
    pub inside : e.element.element_location + e.element.element_length ≤ image_length

  load_entry-IsReadable :
      (e : Entry sys) (blob : List ℕ) (readable : IsReadable (length blob) e) (loaded : List ℕ)
      → store blob e.element.element_location readable.bytes ≡ some loaded
      → load_entry sys e blob ≡ some (true, loaded)
  unfolding load_entry
  load_entry-IsReadable e blob readable loaded w =
      rw (readable.named, load_entry, readable.read, w) (ap (λ r. some (r.1, loaded)) readable.read)

  module _ (typed : IsTyped sys fmt layout) where
    -- The descriptor and the payload are written, and the descriptor stands in its slot.
    next_into-succeeds :
        (k : ℕ) (c : Cache sys) (e : Entry sys) (blob : List ℕ)
        → entry_at_iterator sys (advanced sys c) ≡ some e
        → IsReadable (length blob) e
        → slot_at sys fmt layout k + layout.element_size ≤ e.element.element_location
        → (loaded : List ℕ) × (next_into sys fmt layout k c blob ≡ some (stored, loaded))
          × (length loaded ≡ length blob)
          × IsAt loaded (slot_at sys fmt layout k) (fmt.element_bytes e.element)
    next_into-succeeds k c e blob found readable before =
        let at = slot_at sys fmt layout k in
        let size = typed.size e.element in
        let (described, w) =
          store_total blob at (fmt.element_bytes e.element) (omega (arith, readable.inside)) in
        let same = length-store blob at (fmt.element_bytes e.element) described w in
        let readable' : IsReadable (length described) e = rw same readable in
        let (loaded, w') =
          store_total described e.element.element_location readable'.bytes
            (omega (arith, readable'.whole, readable'.inside)) in
        let whole = load_entry-IsReadable e described readable' loaded w' in
        let fits : ltb (length blob) e.element.element_length ≡ false =
          ground (arith, readable.inside) in
        (
          loaded,
          next_into-found sys fmt layout k c e blob found ∙ rw (fits, w, whole) refl,
          length-store described e.element.element_location readable'.bytes loaded w' ∙ same,
          IsAt-store described e.element.element_location readable'.bytes loaded w' at _
              (inl (omega (arith, size)))
              (store-IsAt blob at (fmt.element_bytes e.element) described w),
        )

    pub mark_end-succeeds :
        (k : ℕ) (blob : List ℕ)
        → slot_at sys fmt layout k + layout.element_size ≤ length blob
        → (marked : List ℕ) × (mark_end sys fmt layout blob k ≡ some marked)
          × (length marked ≡ length blob)
          × IsEnded sys fmt layout k marked
    unfolding mark_end
    mark_end-succeeds k blob room =
        let (old, found) = slot_bytes_total sys fmt layout blob k room in
        let size = slot_bytes-length sys fmt layout blob k old found in
        let bytes = layout.with_type fmt.element_end old in
        let at = slot_at sys fmt layout k in
        let (marked, w) =
          store_total blob at bytes (omega (arith, typed.same_size fmt.element_end old, size)) in
        (
          marked,
          rw (mark_end, found, w) refl,
          length-store blob at bytes marked w,
          record {
            bytes = bytes;
            size = typed.same_size fmt.element_end old ∙ size;
            marker = typed.type_of_end old size;
            placed = store-IsAt blob at bytes marked w;
          },
        )

    next_slot-succeeds :
        (k : ℕ) (e : Element) (blob : List ℕ)
        → IsAt blob (slot_at sys fmt layout k) (fmt.element_bytes e)
        → e.element_type < 2 ^ 8
        → e.element_type ≢ fmt.element_end
        → slot_at sys fmt layout (suc k) + layout.element_size ≤ length blob
        → (marked : List ℕ) × (next_slot sys fmt layout k blob ≡ some (suc k, marked))
          × (length marked ≡ length blob)
          × IsEnded sys fmt layout (suc k) marked
    unfolding next_slot
    next_slot-succeeds k e blob placed small known room =
        let found =
          slot_bytes-IsAt sys fmt layout blob k (fmt.element_bytes e) placed (typed.size e)
            typed.some_bytes in
        let going : (layout.type_of (fmt.element_bytes e) == fmt.element_end) ≡ false =
          ==_false _ _ (λ same. known (sym (typed.type_of_bytes e small) ∙ same)) in
        let (marked, m, same, ended) = mark_end-succeeds (suc k) blob room in
        (marked, rw (next_slot, found, going, m) refl, same, ended)

    module _ (limit start : ℕ) (c : Cache sys) (room : HasRoom sys fmt layout limit start c)
        (max image_length : ℕ) (table : limit ≤ image_length)
        (readable : (k : ℕ) (e : Entry sys)
          → k < c.current_element
          → get_elem? c.entries k ≡ some e
          → IsReadable image_length e) where
      abbrev at_iterator : ℕ → Cache sys
      at_iterator it = record c { element_iterator = it }

      abbrev Succeeds : Outcome → Type 0
      Succeeds o =
          (status : Status) × (final : List ℕ) × (o ≡ filled status final)
          × (status ≢ error)
          × (length final ≡ image_length)

      step-Succeeds :
          (fuel k it : ℕ) (blob : List ℕ)
          → (it + 1) % 2 ^ 32 ≡ k
          → k < c.current_element
          → length blob ≡ image_length
          → ((marked : List ℕ)
              → length marked ≡ image_length
              → IsEnded sys fmt layout (suc k) marked
              → Succeeds (
                  add_elements sys fmt layout fuel max
                    (suc k)
                    (at_iterator ((it + 1) % 2 ^ 32))
                    marked))
          → Succeeds (add_elements sys fmt layout (suc fuel) max k (at_iterator it) blob)
      step-Succeeds fuel k it blob at more size later =
          let (e, found) = entry_at sys fmt layout typed limit start c room k more in
          let (loaded, n, same, placed) =
            next_into-succeeds k (at_iterator it) e blob
              (entry_at_iterator-here sys fmt layout typed limit start c room k it e at more found)
              (rw size (readable k e more found))
              (before_payload sys fmt layout typed limit start c room k k e (omega arith) more
                found) in
          let inside = slot_inside sys fmt layout typed limit start c room (suc k) (omega arith) in
          let (marked, m, same', ended) =
            next_slot-succeeds k e.element loaded placed (room.in_range k e more found)
              (room.known k e more found) (omega (arith, same, size, inside, table)) in
          let step =
            added-step sys fmt layout fuel max k (suc k) (at_iterator it) blob loaded marked stored
              n m in
          let done = same' ∙ (same ∙ size) in
          elim (Bool-cases (ltb (suc k) max)) [
            | inl below ↦
                let (status, final, r, good, total) = later marked done ended in
                (status, final, step ∙ rw below r, good, total)
            | inr full ↦ (stored, marked, step ∙ rw full refl, λ h. cc h, done)
          ]

      pub loop-Succeeds :
          (fuel k it : ℕ) (blob : List ℕ)
          → (it + 1) % 2 ^ 32 ≡ k
          → k ≤ c.current_element
          → c.current_element < fuel + k
          → length blob ≡ image_length
          → IsEnded sys fmt layout k blob
          → Succeeds (add_elements sys fmt layout fuel max k (at_iterator it) blob)
      loop-Succeeds zero k it blob at inside enough size ended = absurd (omega arith)
      loop-Succeeds (suc fuel) k it blob at inside enough size ended =
          elim (Bool-cases (ltb k c.current_element)) [
            | inl more ↦
                let less = (ltb_iff k c.current_element).0 more in
                step-Succeeds fuel k it blob at less size (λ marked size' ended'.
                  loop-Succeeds fuel (suc k) ((it + 1) % 2 ^ 32) marked
                    (omega (arith, at, room.counted, less)) (omega arith) (omega arith) size'
                    ended')
            | inr last ↦
                let test : ltb ((it + 1) % 2 ^ 32) c.current_element ≡ false =
                  ground (arith, at, last) in
                let over = next_into-past sys fmt layout k (at_iterator it) blob test in
                let stays =
                  next_slot-stays sys fmt layout typed blob k ended.bytes ended.placed ended.size
                    ended.marker in
                (
                  end_of_list,
                  blob,
                  added-step sys fmt layout fuel max k k (at_iterator it) blob blob blob end_of_list
                      over stays,
                  λ h. cc h,
                  size,
                )
          ]
