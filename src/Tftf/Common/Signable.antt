-- ===== src/Tftf/Common/Signable.antt =====
-- `tftf_get_signable_region`: what is signed, before and after a signature is appended.
use bootrom_tools.Base.{
  ℕ, suc, ◌+◌, ◌*◌, ◌≤◌, ◌^◌, ◌<◌, ◌≡◌, ◌≢◌, refl, true, List, [], ◌∷◌, ◌++◌, arith, ltb, ◌==◌,
  if◌then◌else◌, length, Bool-cases, inl, inr, some,
}
use bootrom_tools.Tftf.{Format, Section, Header, Blob, live, live_end, live_more}
use bootrom_tools.Tftf.Common.{
  Region, signable_from, tftf_get_signable_region, tftf_payload_size, described, tftf_add_section,
}
use bootrom_tools.Tftf.Common.Append.{sum_lengths, Sealing}
use bootrom_tools.Tftf.Common.AddSection.{IsTable, tftf_add_section_appends}

module _ (fmt : Format) where
  -- The sections before the first signature or certificate.
  unfoldable pub unsealed : List Section → List Section
  unsealed [] = []
  unsealed (s ∷ ss) = if ltb s.section_type fmt.section_signature then s ∷ unsealed ss else []

  -- The end of the `n`th descriptor, from the start of the header; nothing where there is none.
  abbrev pub table_prefix : ℕ → ℕ
  table_prefix n = if n == 0 then 0 else fmt.sections_offset + n * fmt.section_size

  next_prefix :
      (index : ℕ)
      → fmt.sections_offset + index * fmt.section_size + fmt.section_size ≡ table_prefix (suc index)
  next_prefix index = ground arith

  signable_from-unsealed :
      (slots : List Section) (index : ℕ) (region : Region)
      → region.hdr_length ≡ table_prefix index
      → signable_from fmt index region slots ≡ record {
        hdr_length = table_prefix (index + length (unsealed slots));
        scn_length = region.scn_length + sum_lengths fmt (unsealed slots);
      }
  unfolding signable_from unsealed sum_lengths
  signable_from-unsealed [] index region e = ground (arith, e)
  signable_from-unsealed (s ∷ ss) index region e =
      elim (Bool-cases (ltb s.section_type fmt.section_signature)) [
        | inl below ↦
            let region' : Region = record {
              hdr_length = fmt.sections_offset + index * fmt.section_size + fmt.section_size;
              scn_length = region.scn_length + s.section_length;
            } in
            ground (arith, signable_from-unsealed ss (suc index) region' (next_prefix index))
        | inr sealing ↦ ground (arith, e)
      ]

  unsealed-live :
      (slots : List Section)
      → fmt.section_signature ≤ fmt.section_end
      → unsealed (live fmt slots) ≡ unsealed slots
  unfolding unsealed
  unsealed-live [] order = unfold live in refl
  unsealed-live (s ∷ ss) order = elim (Bool-cases (s.section_type == fmt.section_end)) [
    | inl stop ↦ rw (live_end fmt s ss stop) (ground arith)
    | inr more ↦ rw (live_more fmt s ss more) (ground (arith, unsealed-live ss order))
  ]

  unsealed-snoc :
      (ss : List Section) (new : Section)
      → Sealing fmt new
      → unsealed (ss ++ (new ∷ [])) ≡ unsealed ss
  unfolding unsealed
  unsealed-snoc [] new sealing = ground arith
  unsealed-snoc (s ∷ ss) new sealing = ground (arith, unsealed-snoc ss new sealing)

  -- The region to sign ends, in the header, at the last descriptor before the first signature or
  -- certificate, and covers the payloads of the sections up to there.
  pub tftf_get_signable_region_lem :
      (header : Header)
      → fmt.section_signature ≤ fmt.section_end
      → tftf_get_signable_region fmt header ≡ record {
        hdr_length = table_prefix (length (unsealed (live fmt header.sections)));
        scn_length = sum_lengths fmt (unsealed (live fmt header.sections));
      }
  unfolding tftf_get_signable_region
  tftf_get_signable_region_lem header order = rw (unsealed-live header.sections order) (
      ground (
        arith,
        signable_from-unsealed header.sections 0 (record { hdr_length = 0; scn_length = 0 }) refl,
      ))

  -- Under the conditions of `tftf_add_section_appends`, and where the end marker's type is not
  -- below the signature's: adding a signature or a certificate succeeds and leaves the region to
  -- sign as it was.
  pub tftf_get_signable_region-tftf_add_section :
      (max : ℕ) (blob : Blob) (type class id load_address : ℕ) (bytes : List ℕ)
      → fmt.section_signature ≤ fmt.section_end
      → IsTable fmt max blob.header
      → length (live fmt blob.header.sections) + 2 < max
      → type ≢ fmt.section_end
      → fmt.section_signature ≤ type
      → length bytes < 2 ^ 32
      → length blob.payload ≡ tftf_payload_size fmt blob.header
      → (b : Blob) × (tftf_add_section fmt max true
            (some blob)
            type
            class
            id
            load_address
            (some bytes)
            (length bytes)
          ≡ some (true, some b))
        × (tftf_get_signable_region fmt b.header ≡ tftf_get_signable_region fmt blob.header)
  tftf_get_signable_region-tftf_add_section max blob type class id load_address bytes order t room
        kind sealing word whole =
      let (b, added, appended, _, _, _) =
        tftf_add_section_appends fmt max blob type class id load_address bytes t room kind
          (inl sealing) word whole in
      let new : Section = described fmt type class id load_address (length bytes) in
      (
        b,
        added,
        rw
            (
              tftf_get_signable_region_lem b.header order,
              tftf_get_signable_region_lem blob.header order,
              appended,
              unsealed-snoc (live fmt blob.header.sections) new sealing,
            )
            refl,
      )
