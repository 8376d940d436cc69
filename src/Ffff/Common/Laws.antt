-- ===== src/Ffff/Common/Laws.antt =====
-- What the sweeps over an element table find.
use native.Mathlib.Decide.{dec_lt}
use bootrom_tools.Base.{
  Bool, ltb, max, min, ◌+◌, ◌<◌, ℕ, zero, suc, ◌≤◌, ◌≡◌, ◌↔◌, refl, sym, ap, true, ◌&&◌, not, List,
  [], ◌∷◌, ◌++◌, some, arith, ◌==◌, if◌then◌else◌, same_bytes_iff, length, take, append-nil,
  append_assoc, Bool-cases, inl, inr, length-append, take_all, All,
}
use bootrom_tools.Util.Overlap.{regions_overlap}
use bootrom_tools.Ffff.{Format, Element, Header, IsPacked, IsInRange, live, live_end, live_more}
use bootrom_tools.Ffff.Common.{
  overlaps, sweep, ffff_element_collisions, match_elements, ffff_element_tables_match,
}

module _ (fmt : Format) where
  -- Some byte lies in both: the later of the two starts is in front of the earlier of the two ends.
  abbrev pub shares_byte : Element → Element → Bool
  shares_byte a b =
      ltb (max a.element_location b.element_location)
        (min (a.element_location + a.element_length) (b.element_location + b.element_length))

  -- The indices, counted from `index`, of the elements other than `self` that share a byte with a
  -- given one.
  abbrev pub overlapping : Element → ℕ → ℕ → List Element → List ℕ
  overlapping element self index [] = []
  overlapping element self index (e ∷ es) =
      let later = overlapping element self (suc index) es in
      if not (index == self) && shares_byte element e then index ∷ later else later

  -- It has a byte, and its fields have the sizes of the structure's.
  abbrev pub IsNonempty : Element → Type 0
  IsNonempty e = IsInRange e × (0 < e.element_length)

  overlaps-shares_byte :
      (a b : Element) → IsNonempty a → IsNonempty b → overlaps fmt a b ≡ shares_byte a b
  unfolding regions_overlap
  overlaps-shares_byte a b ha hb = ground arith

  take-full : (n : ℕ) (xs ys : List ℕ) → n ≤ length xs → take n (xs ++ ys) ≡ take n xs
  take-full zero xs ys h = refl
  take-full (suc n) [] ys h = absurd (omega arith)
  take-full (suc n) (x ∷ xs) ys h = ap (◌∷◌ x) (take-full n xs ys (omega arith))

  sweep-overlapping :
      (element : Element) (self max index : ℕ) (slots : List Element) (found : List ℕ)
      → length found ≤ max
      → IsNonempty element
      → All IsNonempty (live fmt slots)
      → sweep fmt element self max index slots found
        ≡ take max (found ++ overlapping element self index (live fmt slots))
  unfolding sweep
  sweep-overlapping element self max index [] found h he hs =
      unfold live in rw append-nil (sym (take_all found max h))
  sweep-overlapping element self max index (e ∷ es) found h he hs =
      elim (Bool-cases (e.element_type == fmt.element_end)) [
        | inl stop ↦ rw (live_end fmt e es stop, append-nil) (ground (arith, take_all found max h))
        | inr more ↦
            let hs' : IsNonempty e × All IsNonempty (live fmt es) =
              rw (live_more fmt e es more) at hs in
            rw (live_more fmt e es more) (elim (dec_lt (length found) max) [
              | yes room ↦ ground (
                arith,
                length-append found (index ∷ []),
                append_assoc found (index ∷ [])
                    (overlapping element self (suc index) (live fmt es)),
                overlaps-shares_byte element e he hs'.0,
                sweep-overlapping element self max (suc index) es found h he hs'.1,
                (λ (room : length (found ++ (index ∷ [])) ≤ max).
                    sweep-overlapping element self max (suc index) es (found ++ (index ∷ [])) room
                      he hs'.1),
              )
              | no full ↦ ground (
                arith,
                take_all found max h,
                take-full max found (overlapping element self index (e ∷ live fmt es)),
              )
            ])
      ]

  -- Where the given element and those in use are nonempty and their fields are in range:
  -- `ffff_element_collisions` reports, in order, the first `max_collisions` of the elements in use
  -- that share a byte with the given one, not counting that one itself.
  pub collisions-overlapping :
      (max_elements : ℕ) (header : Header) (element : Element) (self max_collisions : ℕ)
      → IsNonempty element
      → All IsNonempty (live fmt (take max_elements header.elements))
      → ffff_element_collisions fmt max_elements (some header) element self max_collisions
        ≡ take max_collisions
            (overlapping element self 0 (live fmt (take max_elements header.elements)))
  unfolding ffff_element_collisions
  collisions-overlapping max_elements header element self max_collisions he hs =
      sweep-overlapping element self max_collisions 0 (take max_elements header.elements) []
        (omega arith) he hs

  -- A table up to its end marker, the marker included.
  abbrev pub through_end : List Element → List Element
  through_end [] = []
  through_end (e ∷ es) = if e.element_type == fmt.element_end then e ∷ [] else e ∷ through_end es

  match_elements_iff :
      (xs ys : List Element)
      → IsPacked fmt
      → All IsInRange xs
      → All IsInRange ys
      → length xs ≡ length ys
      → (match_elements fmt xs ys ≡ true) ↔ (through_end xs ≡ through_end ys)
  unfolding match_elements
  match_elements_iff [] [] p rx ry e = ground arith
  match_elements_iff [] (y ∷ ys) p rx ry e = absurd (omega arith)
  match_elements_iff (x ∷ xs) [] p rx ry e = absurd (omega arith)
  match_elements_iff (x ∷ xs) (y ∷ ys) p rx ry e = ground (
    arith,
    same_bytes_iff (fmt.element_bytes x) (fmt.element_bytes y),
    p x y rx.0 ry.0,
    match_elements_iff xs ys p rx.1 ry.1 (omega arith),
  )

  -- Two tables of the same number of slots match exactly when they agree up to the end marker, the
  -- marker included; where the fields are in range and the structure has no padding bytes.
  pub tables_match_iff :
      (max_elements : ℕ) (x y : Header)
      → IsPacked fmt
      → All IsInRange (take max_elements x.elements)
      → All IsInRange (take max_elements y.elements)
      → length (take max_elements x.elements) ≡ length (take max_elements y.elements)
      → (ffff_element_tables_match fmt max_elements (some x) (some y) ≡ some true)
        ↔ (through_end (take max_elements x.elements) ≡ through_end (take max_elements y.elements))
  unfolding ffff_element_tables_match
  tables_match_iff max_elements x y p rx ry e = ground (
    arith,
    match_elements_iff (take max_elements x.elements) (take max_elements y.elements) p rx ry e,
  )
