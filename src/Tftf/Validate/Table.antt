-- ===== src/Tftf/Validate/Table.antt =====
-- What the checks of `valid_tftf_section` mean for the table as a whole.
use bootrom_tools.Base.{
  ℕ, suc, ◌+◌, ◌^◌, ◌≤◌, ◌<◌, ◌≡◌, ◌≢◌, ◌↔◌, ◌⊎◌, Bool, true, false, ◌&&◌, ◌||◌, not, List, [], ◌∷◌,
  arith, ◌==◌, if◌then◌else◌, length, All, Any, Bool-cases, inl, inr,
}
use bootrom_tools.Tftf.{Format, Section, Header, live, live_end, live_more}
use bootrom_tools.Tftf.Validate.{
  ended, valid_tftf_type, collides, no_collision, contains_start, valid_tftf_section, scan_sections,
}

-- The later section `o` ends strictly before `s` begins, or begins where `s` ends or after it.
abbrev pub Clear : Section → Section → Type 0
Clear s o =
    (o.section_load_address + o.section_expanded_length < s.section_load_address)
    ⊎ (s.section_load_address + s.section_expanded_length ≤ o.section_load_address)

module _ (fmt : Format) where
  -- The section ends within the 32-bit address space, unless its address is to be ignored.
  abbrev pub Fits : Section → Type 0
  Fits s =
      (s.section_load_address ≡ fmt.data_address_to_be_ignored)
      ⊎ (s.section_load_address + s.section_expanded_length < 2 ^ 32)

  abbrev pub Ends : Section → Type 0
  Ends s = s.section_load_address + s.section_expanded_length < 2 ^ 32

  abbrev pub KnownType : ℕ → Type 0
  KnownType t =
      ((fmt.section_raw_code ≤ t) × (t ≤ fmt.section_manifest))
      ⊎ ((t ≡ fmt.section_signature) ⊎ ((t ≡ fmt.section_certificate) ⊎ (t ≡ fmt.section_end)))

  -- The sections before the first whose address is to be ignored.
  unfoldable pub until_ignored : List Section → List Section
  until_ignored [] = []
  until_ignored (s ∷ ss) =
      if s.section_load_address == fmt.data_address_to_be_ignored then [] else s ∷ until_ignored ss

  until_ignored-stop :
      (s : Section) (ss : List Section)
      → (s.section_load_address == fmt.data_address_to_be_ignored) ≡ true
      → until_ignored (s ∷ ss) ≡ []
  unfolding until_ignored
  until_ignored-stop s ss h = rw h

  until_ignored-more :
      (s : Section) (ss : List Section)
      → (s.section_load_address == fmt.data_address_to_be_ignored) ≡ false
      → until_ignored (s ∷ ss) ≡ s ∷ until_ignored ss
  unfolding until_ignored
  until_ignored-more s ss h = rw h

  abbrev pub ValidSection : Section → List Section → Type 0
  ValidSection s following =
      KnownType s.section_type
      × ((s.section_load_address ≡ fmt.data_address_to_be_ignored)
          ⊎ ((s.section_length ≤ s.section_expanded_length)
              × All (Clear s) (until_ignored following)))

  abbrev pub ValidTable : List Section → Type 0
  ValidTable [] = Unit
  ValidTable (s ∷ ss) = ValidSection s ss × ValidTable ss

  -- A code section that is loaded and holds the entry point.
  abbrev pub HoldsStart : Header → Section → Type 0
  HoldsStart header s =
      (s.section_load_address ≢ fmt.data_address_to_be_ignored)
      × (s.section_type ≡ fmt.section_raw_code)
      × (s.section_load_address ≤ header.start_location)
      × (header.start_location < s.section_load_address + s.section_expanded_length)

  collides-Clear : (s o : Section) → Ends s → Ends o → (collides fmt s o ≡ false) ↔ Clear s o
  unfolding collides
  collides-Clear s o hs ho = ground arith

  no_collision_iff :
      (s : Section) (rest : List Section)
      → Ends s
      → All Fits (live fmt rest)
      → (no_collision fmt s rest ≡ true) ↔ All (Clear s) (until_ignored (live fmt rest))
  unfolding no_collision
  no_collision_iff s [] hs h = unfold live until_ignored in ground arith
  no_collision_iff s (o ∷ rest) hs h = elim (Bool-cases (o.section_type == fmt.section_end)) [
    | inl stop ↦ rw (live_end fmt o rest stop) (unfold until_ignored in ground arith)
    | inr more ↦
        let h' : Fits o × All Fits (live fmt rest) = rw (live_more fmt o rest more) at h in
        rw (live_more fmt o rest more)
          (elim (Bool-cases (o.section_load_address == fmt.data_address_to_be_ignored)) [
            | inl skip ↦ rw (until_ignored-stop o (live fmt rest) skip) (ground arith)
            | inr seen ↦ rw (until_ignored-more o (live fmt rest) seen) (
                ground (
                  arith,
                  h'.0,
                  λ (ends : Ends o). collides-Clear s o hs ends,
                  no_collision_iff s rest hs h'.1,
                ))
          ])
  ]

  pub holds_start : Header → List Section → Bool
  holds_start header [] = false
  holds_start header (s ∷ ss) =
      (not (s.section_load_address == fmt.data_address_to_be_ignored)
        && contains_start fmt header s)
      || holds_start header ss

  pub holds_start_iff :
      (header : Header) (ss : List Section)
      → All Fits ss
      → (holds_start header ss ≡ true) ↔ Any (HoldsStart header) ss
  unfolding holds_start contains_start
  holds_start_iff header [] h = ground arith
  holds_start_iff header (s ∷ ss) h = ground (arith, holds_start_iff header ss h.1, h.0)

  pub valid_type_iff : (t : ℕ) → (valid_tftf_type fmt t ≡ true) ↔ KnownType t
  unfolding valid_tftf_type
  valid_type_iff t = ground arith

  pub scan_sections_iff :
      (header : Header) (slots : List Section) (index m : ℕ) (contains b : Bool)
      → All Fits (live fmt slots)
      → (scan_sections fmt header index contains slots ≡ ended m b) ↔ (
          (m ≡ index + suc (length (live fmt slots)))
          × (length (live fmt slots) < length slots)
          × ValidTable (live fmt slots)
          × (b ≡ (contains || holds_start header (live fmt slots))))
  unfolding scan_sections valid_tftf_section holds_start
  scan_sections_iff header [] index m contains b h = unfold live in ground arith
  scan_sections_iff header (s ∷ rest) index m contains b h =
      elim (Bool-cases (s.section_type == fmt.section_end)) [
        | inl stop ↦ rw (live_end fmt s rest stop) (ground (arith, valid_type_iff s.section_type))
        | inr more ↦
            let h' : Fits s × All Fits (live fmt rest) = rw (live_more fmt s rest more) at h in
            rw (live_more fmt s rest more) (elim (Bool-cases (contains_start fmt header s)) [
              | inl here ↦ ground (
                arith,
                valid_type_iff s.section_type,
                h'.0,
                λ (ends : Ends s). no_collision_iff s rest ends h'.1,
                scan_sections_iff header rest (suc index) m true b h'.1,
                scan_sections_iff header rest (suc index) m contains b h'.1,
              )
              | inr elsewhere ↦ ground (
                arith,
                valid_type_iff s.section_type,
                h'.0,
                λ (ends : Ends s). no_collision_iff s rest ends h'.1,
                scan_sections_iff header rest (suc index) m contains b h'.1,
              )
            ])
      ]
