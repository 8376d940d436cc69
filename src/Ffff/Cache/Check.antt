-- ===== src/Ffff/Cache/Check.antt =====
-- What the setters, the totals and the location check compute.
use bootrom_tools.Base.{
  Bool, ℕ, ◌+◌, ◌*◌, ◌%◌, ◌^◌, ◌≤◌, ◌<◌, ◌≡◌, ◌↔◌, true, List, [], ◌∷◌, Option, none, some, arith,
  get_elem?, take, All, inl, inr, lt_of_get_elem?, Option-cases, get_elem?-set_self,
  get_elem?-none_iff,
}
use bootrom_tools.Files.{System}
use bootrom_tools.Util.Boundary.{block_aligned_iff, next_boundary, next_boundary_blocks}
use bootrom_tools.Ffff.{Element}
use bootrom_tools.Ffff.Cache.{
  Entry, Cache, update_current, entry_set, entry_set_class, entry_set_id, entry_set_length,
  entry_set_location, entry_set_generation, valid_locations, validate_locations,
}
use bootrom_tools.Ffff.Cache.Inv.{IsValid}

module _ (sys : System) where
  -- Every cached element is aligned and lies between the two limits.
  abbrev pub Located : ℕ → ℕ → ℕ → Entry sys → Type 0
  Located lower_limit erase_block_length image_length e =
      (e.element.element_location % erase_block_length ≡ 0)
      × (lower_limit ≤ e.element.element_location)
      × (e.element.element_location < image_length)

  valid_locations_iff :
      (lower_limit k image_length : ℕ) (es : List (Entry sys))
      → k < 32
      → (valid_locations sys lower_limit (2 ^ k) image_length es ≡ true)
        ↔ All (Located lower_limit (2 ^ k) image_length) es
  unfolding valid_locations
  valid_locations_iff lo k hi [] h = ground arith
  valid_locations_iff lo k hi (e ∷ es) h =
      ground
        (arith, block_aligned_iff k e.element.element_location h, valid_locations_iff lo k hi es h)

  -- Where erase blocks of 2^k bytes, two headers' worth of which end below 2^32, are the fewest that
  -- hold a header: `element_cache_validate_locations` accepts the cache exactly when every closed
  -- element starts at a multiple of the erase block, behind the blocks of both headers, and within
  -- the image.
  pub validate_locations_iff :
      (header_size k blocks image_length : ℕ) (c : Cache sys)
      → k < 31
      → header_size ≤ blocks * 2 ^ k
      → blocks * 2 ^ k < header_size + 2 ^ k
      → 2 * (blocks * 2 ^ k) < 2 ^ 32
      → (validate_locations sys header_size (2 ^ k) image_length c ≡ true)
        ↔ All
            (Located (2 * (blocks * 2 ^ k)) (2 ^ k) image_length)
            (take c.current_element c.entries)
  unfolding validate_locations
  validate_locations_iff header_size k blocks image_length c h enough fewest below =
      let boundary : next_boundary header_size (2 ^ k) ≡ blocks * 2 ^ k =
        next_boundary_blocks k blocks header_size h enough fewest (omega arith) in
      let limit : 2 * next_boundary header_size (2 ^ k) % 2 ^ 32 ≡ 2 * (blocks * 2 ^ k) =
        omega (arith, boundary) in
      rw limit (
        valid_locations_iff (2 * (blocks * 2 ^ k)) k image_length (take c.current_element c.entries)
          (omega arith))

  -- The element under the cursor.
  abbrev pub current : Cache sys → Option Element
  current c = elim (get_elem? c.entries c.current_element) [ none ↦ none | some e ↦ some e.element ]

  -- The call succeeded, and this is now the element under the cursor.
  abbrev pub Sets : Bool × Cache sys → Element → Type 0
  Sets r e = (r.0 ≡ true) × (current r.1 ≡ some e)

  entry_set-current :
      (f : Element → Element) (c : Cache sys)
      → c.element_window_open ≡ true
      → {e : Entry sys} → get_elem? c.entries c.current_element ≡ some e
      → Sets (entry_set sys f c) (f e.element)
  unfolding update_current
  entry_set-current f c w {e} found =
      let g : Entry sys → Entry sys = λ e. record e { element = f e.element } in
      let inside = lt_of_get_elem? c.entries c.current_element found in
      ground (arith, found, get_elem?-set_self c.entries c.current_element (g e) inside)

  -- Each setter, called on a valid cache with an open window, succeeds and stores its value in its
  -- own field of the element under the cursor.
  pub entry_set-open :
      (v : ℕ) (c : Cache sys)
      → IsValid sys c
      → c.element_window_open ≡ true
      → (e : Element) × (current c ≡ some e)
        × Sets (entry_set_class sys v c) (record e { element_class = v })
        × Sets (entry_set_id sys v c) (record e { element_id = v })
        × Sets (entry_set_length sys v c) (record e { element_length = v })
        × Sets (entry_set_location sys v c) (record e { element_location = v })
        × Sets (entry_set_generation sys v c) (record e { element_generation = v })
  unfolding entry_set_class entry_set_id entry_set_length entry_set_location entry_set_generation
  entry_set-open v c valid w = elim (Option-cases (get_elem? c.entries c.current_element)) [
    | inl missing ↦
        absurd (omega (arith, (get_elem?-none_iff c.entries c.current_element).0 missing))
    | inr (e, found) ↦ (
      e.element,
      ground (arith, found),
      entry_set-current _ c w found,
      entry_set-current _ c w found,
      entry_set-current _ c w found,
      entry_set-current _ c w found,
      entry_set-current _ c w found,
    )
  ]
