-- ===== src/Tftf/Common/AddSection.antt =====
-- `tftf_add_section`: when it refuses, and what an accepted section does to the blob.
use native.Mathlib.Nat.{zero-add}
use native.Mathlib.Numerals.{add-one}
use bootrom_tools.Base.{
  ℕ, ◌+◌, ◌^◌, ◌≤◌, ◌<◌, ◌≡◌, ◌≢◌, ◌↔◌, ◌∙◌, ◌⊎◌, refl, ap, Bool, true, false, List, [], ◌∷◌, ◌++◌,
  Option, some, arith, length, get_elem?, set, take, Any, inl, inr, take_all, get_elem?-none_iff,
  Option-cases, length-append, length-set,
}
use bootrom_tools.Tftf.{Format, Section, Header, Blob, live}
use bootrom_tools.Tftf.Common.{
  tftf_payload_size, append_to_tftf_blob, described, find_end, tftf_add_section,
}
use bootrom_tools.Tftf.Common.Append.{
  sum_lengths, payload_from-sum, Sealing, has_sealing, has_sealing_iff, find_end_lem, live-insert,
}

module _ (fmt : Format) where
  -- The table is as long as `tftf_max_sections` says, and ends before its last slot.
  pub record IsTable (max_sections : ℕ) (header : Header) : Type 0 where
    pub slots : length header.sections ≡ max_sections
    pub terminated : length (live fmt header.sections) < max_sections
    pub minimum : 2 ≤ max_sections
    pub word : max_sections < 2 ^ 32

  located :
      (max : ℕ) (header : Header)
      → IsTable max header
      → find_end fmt 0 false (take max header.sections)
        ≡ (length (live fmt header.sections), has_sealing fmt (live fmt header.sections))
  located max header t =
      rw (take_all header.sections max (omega arith), find_end_lem fmt header.sections 0 false)
        (ground arith)

  payload_size_lem :
      (header : Header) → tftf_payload_size fmt header ≡ sum_lengths fmt (live fmt header.sections)
  unfolding tftf_payload_size
  payload_size_lem header = payload_from-sum fmt header.sections 0 ∙ rw zero-add

  sum_lengths-snoc :
      (ss : List Section) (new : Section)
      → sum_lengths fmt (ss ++ (new ∷ [])) ≡ sum_lengths fmt ss + new.section_length
  unfolding sum_lengths
  sum_lengths-snoc [] new = omega arith
  sum_lengths-snoc (s ∷ ss) new = omega (arith, sum_lengths-snoc ss new)

  -- `tftf_add_section` refuses, and leaves the blob as it is, exactly when the table has no two
  -- slots to spare besides the end marker's, or when a section that is neither a signature nor a
  -- certificate would follow one.
  pub tftf_add_section_refuses_iff :
      (max : ℕ) (malloc_succeeds : Bool) (blob : Blob) (type class id load_address : ℕ)
      (bytes : Option (List ℕ)) (len : ℕ)
      → IsTable max blob.header
      → (tftf_add_section fmt max malloc_succeeds (some blob) type class id load_address bytes len
          ≡ some (false, some blob))
        ↔ ((max ≤ length (live fmt blob.header.sections) + 2)
            ⊎ (Any (Sealing fmt) (live fmt blob.header.sections) × (type < fmt.section_signature)))
  unfolding tftf_add_section
  tftf_add_section_refuses_iff max malloc_succeeds blob type class id load_address bytes len t =
      ground (arith, located max blob.header t, has_sealing_iff fmt (live fmt blob.header.sections))

  -- Where the enlarged blob cannot be allocated, `tftf_add_section` still reports success for a
  -- section that the table would accept, and leaves the blob without it.
  tftf_add_section_unallocated :
      (max : ℕ) (blob : Blob) (type class id load_address : ℕ) (bytes : Option (List ℕ)) (len : ℕ)
      → IsTable max blob.header
      → length (live fmt blob.header.sections) + 2 < max
      → (fmt.section_signature ≤ type) ⊎ (¬ Any (Sealing fmt) (live fmt blob.header.sections))
      → tftf_add_section fmt max false (some blob) type class id load_address bytes len
        ≡ some (true, some blob)
  unfolding tftf_add_section append_to_tftf_blob
  tftf_add_section_unallocated max blob type class id load_address bytes len t room allowed =
      ground (arith, located max blob.header t, has_sealing_iff fmt (live fmt blob.header.sections))

  -- Where the blob is as long as its sections say, the table has room, the allocation succeeds and
  -- the data is shorter than 2^32 bytes: a section that is not an end marker, and is a signature or
  -- certificate unless the table has none, is appended to the sections in use and its data to the
  -- payload, which stays as long as the sections say; the table keeps its size, and success is
  -- reported.
  pub tftf_add_section_appends :
      (max : ℕ) (blob : Blob) (type class id load_address : ℕ) (bytes : List ℕ)
      → IsTable max blob.header
      → length (live fmt blob.header.sections) + 2 < max
      → type ≢ fmt.section_end
      → (fmt.section_signature ≤ type) ⊎ (¬ Any (Sealing fmt) (live fmt blob.header.sections))
      → length bytes < 2 ^ 32
      → length blob.payload ≡ tftf_payload_size fmt blob.header
      → (b : Blob) × (tftf_add_section fmt max true
            (some blob)
            type
            class
            id
            load_address
            (some bytes)
            (length bytes)
          ≡ some (true, some b))
        × (live fmt b.header.sections
            ≡ live fmt blob.header.sections
              ++ (described fmt type class id load_address (length bytes) ∷ []))
        × (b.payload ≡ blob.payload ++ bytes)
        × (length b.payload ≡ tftf_payload_size fmt b.header)
        × (length b.header.sections ≡ max)
  unfolding tftf_add_section append_to_tftf_blob
  tftf_add_section_appends max blob type class id load_address bytes t room kind allowed word
        whole =
      elim (Option-cases (get_elem? blob.header.sections n)) [
        | inl missing ↦
            absurd (omega (arith, (get_elem?-none_iff blob.header.sections n).0 missing))
        | inr (e, found) ↦
            let table : List Section = set (set blob.header.sections (n + 1) e) n new in
            let appended : live fmt table ≡ live fmt blob.header.sections ++ (new ∷ []) =
              rw add-one
                (live-insert fmt blob.header.sections n new e kind refl found (omega arith)) in
            (
              record {
                header = record (blob.header) { sections = table };
                payload = blob.payload ++ bytes;
              },
              ground (
                arith,
                located max blob.header t,
                has_sealing_iff fmt (live fmt blob.header.sections),
                found,
                get_elem?-none_iff blob.header.sections (n + 1),
                take_all blob.payload (tftf_payload_size fmt blob.header),
                take_all bytes (length bytes),
              ),
              appended,
              refl,
              grown table appended,
              length-set (set blob.header.sections (n + 1) e) n new
                  ∙ length-set blob.header.sections (n + 1) e
                  ∙ t.slots,
            )
      ]
    where
      n : ℕ
      n = length (live fmt blob.header.sections)

      new : Section
      new = described fmt type class id load_address (length bytes)

      grown :
          (table : List Section)
          → live fmt table ≡ live fmt blob.header.sections ++ (new ∷ [])
          → length (blob.payload ++ bytes)
            ≡ tftf_payload_size fmt (record (blob.header) { sections = table })
      grown table appended = omega (
        arith,
        payload_size_lem (record (blob.header) { sections = table }),
        payload_size_lem blob.header,
        ap (sum_lengths fmt) appended,
        sum_lengths-snoc (live fmt blob.header.sections) new,
        length-append blob.payload bytes,
      )
