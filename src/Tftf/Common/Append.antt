-- ===== src/Tftf/Common/Append.antt =====
-- What `tftf_add_section` does to the table and to the payload.
use bootrom_tools.Base.{
  ℕ, zero, suc, ◌+◌, ◌≤◌, ◌<◌, ◌≡◌, ◌≢◌, ◌↔◌, refl, ap, Bool, true, false, ◌||◌, List, [], ◌∷◌,
  ◌++◌, some, arith, leb, ◌==◌, length, get_elem?, set, Any, Bool-cases, inl, inr, ==_false,
}
use bootrom_tools.Tftf.{Format, Section, live, live_end, live_more}
use bootrom_tools.Tftf.Common.{payload_from, find_end}

module _ (fmt : Format) where
  unfoldable pub sum_lengths : List Section → ℕ
  sum_lengths [] = 0
  sum_lengths (s ∷ ss) = s.section_length + sum_lengths ss

  pub payload_from-sum :
      (slots : List Section) (size : ℕ)
      → payload_from fmt size slots ≡ size + sum_lengths (live fmt slots)
  unfolding payload_from sum_lengths
  payload_from-sum [] size = unfold live in omega arith
  payload_from-sum (s ∷ ss) size = elim (Bool-cases (s.section_type == fmt.section_end)) [
    | inl stop ↦ rw (live_end fmt s ss stop) (ground arith)
    | inr more ↦
        rw (live_more fmt s ss more) (ground (arith, payload_from-sum ss (size + s.section_length)))
  ]

  -- A signature or a certificate.
  abbrev pub Sealing : Section → Type 0
  Sealing s = fmt.section_signature ≤ s.section_type

  pub has_sealing : List Section → Bool
  has_sealing [] = false
  has_sealing (s ∷ ss) = leb fmt.section_signature s.section_type || has_sealing ss

  pub has_sealing_iff : (ss : List Section) → (has_sealing ss ≡ true) ↔ Any Sealing ss
  unfolding has_sealing
  has_sealing_iff [] = ground arith
  has_sealing_iff (s ∷ ss) = ground (arith, has_sealing_iff ss)

  pub find_end_lem :
      (slots : List Section) (i : ℕ) (r : Bool)
      → find_end fmt i r slots ≡ (i + length (live fmt slots), r || has_sealing (live fmt slots))
  unfolding find_end has_sealing
  find_end_lem [] i r = unfold live in ground arith
  find_end_lem (s ∷ ss) i r = elim (Bool-cases (s.section_type == fmt.section_end)) [
    | inl stop ↦ rw (live_end fmt s ss stop) (ground arith)
    | inr more ↦
        rw (live_more fmt s ss more)
          (ground (arith, find_end_lem ss (suc i) (leb fmt.section_signature s.section_type || r)))
  ]

  -- Moving the end marker one slot on and writing a section into its place appends the section.
  pub live-insert :
      (slots : List Section) (n : ℕ) (new e : Section)
      → new.section_type ≢ fmt.section_end
      → n ≡ length (live fmt slots)
      → get_elem? slots n ≡ some e
      → n + 1 < length slots
      → live fmt (set (set slots (suc n) e) n new) ≡ live fmt slots ++ (new ∷ [])
  live-insert [] n new e type here found room = absurd (omega arith)
  live-insert (s ∷ []) n new e type here found room = absurd (omega arith)
  live-insert (s ∷ t ∷ ss) zero new e type here found room =
      elim (Bool-cases (s.section_type == fmt.section_end)) [
        | inl stop ↦
            let same : s ≡ e = cc in
            let end_e : (e.section_type == fmt.section_end) ≡ true = rw same at stop in
            let live_new : (new.section_type == fmt.section_end) ≡ false = ==_false _ _ type in
            rw
              (
                live_end fmt s (t ∷ ss) stop,
                live_more fmt new (e ∷ ss) live_new,
                live_end fmt e ss end_e,
              )
              refl
        | inr more ↦
            let count : 0 ≡ suc (length (live fmt (t ∷ ss))) =
              rw (live_more fmt s (t ∷ ss) more) at here in
            absurd (omega arith)
      ]
  live-insert (s ∷ t ∷ ss) (suc n) new e type here found room =
      elim (Bool-cases (s.section_type == fmt.section_end)) [
        | inl stop ↦
            let count : suc n ≡ 0 = rw (live_end fmt s (t ∷ ss) stop) at here in
            absurd (omega arith)
        | inr more ↦
            let count : suc n ≡ suc (length (live fmt (t ∷ ss))) =
              rw (live_more fmt s (t ∷ ss) more) at here in
            rw
              (
                live_more fmt s (t ∷ ss) more,
                live_more fmt s (set (set (t ∷ ss) (suc n) e) n new) more,
              )
              (ap (◌∷◌ s) (live-insert (t ∷ ss) n new e type (omega arith) found (omega arith)))
      ]
