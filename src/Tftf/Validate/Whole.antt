-- ===== src/Tftf/Validate/Whole.antt =====
-- `valid_tftf_header` accepts exactly the well-formed headers.
use bootrom_tools.Base.{
  ℕ, suc, ◌+◌, ◌≤◌, ◌<◌, ◌≡◌, ◌≢◌, ◌↔◌, ◌∙◌, ◌⊎◌, refl, Bool, false, List, ◌∷◌, ◌++◌, arith, length,
  take, drop, replicate, All, Any, inl, inr, same_bytes_iff, flat_bytes,
}
use bootrom_tools.Util.Fill.{is_constant_fill_iff}
use bootrom_tools.Tftf.{Format, Section, Header, live}
use bootrom_tools.Tftf.Validate.{
  Reason, Scan, ended, stopped, invalid, collision, good, scan_sections, valid_tftf_header,
  valid_tftf_section, no_collision, collides,
}
use bootrom_tools.Tftf.Validate.Table.{
  Fits, KnownType, ValidTable, HoldsStart, holds_start, holds_start_iff, scan_sections_iff,
  valid_type_iff,
}

module _ (fmt : Format) where
  -- The bytes between the end marker and the end of the header.
  abbrev pub unused_bytes : ℕ → Header → List ℕ
  unused_bytes max_sections header =
      let used = suc (length (live fmt (take max_sections header.sections))) in
      flat_bytes fmt.section_bytes (drop used header.sections) ++ header.padding

  pub record IsWellFormed (max_sections : ℕ) (header : Header) : Type 0 where
    pub leading : header.sentinel_value ≡ fmt.tftf_sentinel
    pub size_min : fmt.header_size_min ≤ header.header_size
    pub size_max : header.header_size ≤ fmt.header_size_max
    pub terminated :
        length (live fmt (take max_sections header.sections))
        < length (take max_sections header.sections)
    pub table : ValidTable fmt (live fmt (take max_sections header.sections))
    pub start :
        (header.start_location ≡ 0)
        ⊎ Any (HoldsStart fmt header) (live fmt (take max_sections header.sections))
    pub zero_padded :
        unused_bytes max_sections header ≡ replicate (length (unused_bytes max_sections header)) 0

  Scan-cases :
      (s : Scan) → ((m : ℕ) × (b : Bool) × (s ≡ ended m b)) ⊎ ((r : Reason) × (s ≡ stopped r))
  Scan-cases (ended m b) = inl (m, b, refl)
  Scan-cases (stopped r) = inr (r, refl)

  -- For a header whose sections in use end below 2^32, except those whose address is to be ignored,
  -- `valid_tftf_header` succeeds exactly when
  -- the sentinel stands, the size is in range, the end marker is among the first `max_sections`
  -- slots, every section has a known type and (unless its address is to be ignored) no payload
  -- longer than its expanded length and no clash with the sections after it up to the first whose
  -- address is to be ignored, a nonzero entry point lies in a loaded code section, and the rest of
  -- the header is zero. A later section that ends right where the section begins is a clash.
  pub valid_tftf_header_iff :
      (max_sections : ℕ) (header : Header)
      → All (Fits fmt) (live fmt (take max_sections header.sections))
      → (valid_tftf_header fmt max_sections header ≡ good) ↔ IsWellFormed max_sections header
  unfolding valid_tftf_header
  valid_tftf_header_iff max_sections header fits =
      let slots : List Section = take max_sections header.sections in
      let used : ℕ = suc (length (live fmt slots)) in
      let unused : List ℕ = unused_bytes max_sections header in
      let held = holds_start_iff fmt header (live fmt slots) fits in
      elim (Scan-cases (scan_sections fmt header 0 false slots)) [
        | inl (m, b, e) ↦
            let all = (scan_sections_iff fmt header slots 0 m false b fits).0 e in
            let at : m ≡ used = omega (arith, all.0) in
            let e' : scan_sections fmt header 0 false slots
                ≡ ended used (holds_start fmt header (live fmt slots)) =
              e ∙ cc (at, all.3) in
            ground (
              arith,
              e',
              all.1,
              all.2,
              held,
              same_bytes_iff header.sentinel_value fmt.tftf_sentinel,
              is_constant_fill_iff unused 0,
            )
        | inr (r, e) ↦ ground (
          arith,
          e,
          scan_sections_iff fmt header slots 0 used false (holds_start fmt header (live fmt slots))
              fits,
        )
      ]

  -- A section that ends exactly where an earlier section of the table begins is refused as a
  -- collision, though the two share no byte.
  valid_tftf_section_adjacent :
      (header : Header) (s o : Section) (rest : List Section)
      → KnownType fmt s.section_type
      → s.section_type ≢ fmt.section_end
      → o.section_type ≢ fmt.section_end
      → s.section_load_address ≢ fmt.data_address_to_be_ignored
      → o.section_load_address ≢ fmt.data_address_to_be_ignored
      → Fits fmt s
      → s.section_length ≤ s.section_expanded_length
      → 0 < o.section_expanded_length
      → o.section_load_address + o.section_expanded_length ≡ s.section_load_address
      → valid_tftf_section fmt header s (o ∷ rest) ≡ invalid collision
  unfolding valid_tftf_section no_collision collides
  valid_tftf_section_adjacent header s o rest known s_live o_live s_loaded o_loaded fits sane
        some_bytes meets =
      ground (arith, valid_type_iff fmt s.section_type)
