-- ===== src/Ffff/Common.antt =====
-- src/common/ffff_common.c: collisions between elements, and the comparison of two headers.
-- A pointer that may be null is an option.
pub mod Laws
use bootrom_tools.Base.{
  ℕ, zero, suc, ◌+◌, Bool, true, false, ◌&&◌, not, List, [], ◌∷◌, ◌++◌, Option, none, some, ltb,
  ◌==◌, if◌then◌else◌, same_bytes, length, take,
}
use bootrom_tools.Util.Overlap.{regions_overlap}
use bootrom_tools.Ffff.{Format, Element, Header}

module _ (fmt : Format) where
  abbrev pub overlaps : Element → Element → Bool
  overlaps element sweeper =
      regions_overlap element.element_location element.element_length sweeper.element_location
        sweeper.element_length

  -- The sweep over the table. `self` is the index of the element, which is skipped; the table of
  -- collisions is what was found so far.
  unfoldable pub sweep : Element → ℕ → ℕ → ℕ → List Element → List ℕ → List ℕ
  sweep element self max_collisions index [] collisions = collisions
  sweep element self max_collisions index (sweeper ∷ rest) collisions =
      let later = sweep element self max_collisions (suc index) rest (
        if not (index == self) && overlaps element sweeper
        then collisions ++ (index ∷ [])
        else collisions) in
      if not (sweeper.element_type == fmt.element_end) && ltb (length collisions) max_collisions
      then later
      else collisions

  -- The indices written to the table of collisions; the function returns their number. A null
  -- header gives none.
  unfoldable pub ffff_element_collisions : ℕ → Option Header → Element → ℕ → ℕ → List ℕ
  unfolding sweep
  ffff_element_collisions max_elements none element self max_collisions = []
  ffff_element_collisions max_elements (some ffff_hdr) element self max_collisions =
      sweep element self max_collisions 0 (take max_elements ffff_hdr.elements) []

  unfoldable pub match_elements : List Element → List Element → Bool
  match_elements [] ys = true
  match_elements (x ∷ xs) [] = false
  match_elements (x ∷ xs) (y ∷ ys) =
      if not (same_bytes (fmt.element_bytes x) (fmt.element_bytes y))
      then false
      else if x.element_type == fmt.element_end
      then true
      else match_elements xs ys

  -- `none` is a read through a null pointer: the test for null reads the first header twice.
  unfoldable pub ffff_element_tables_match : ℕ → Option Header → Option Header → Option Bool
  unfolding match_elements
  ffff_element_tables_match max_elements none ffff_hdr_y = some false
  ffff_element_tables_match max_elements (some ffff_hdr_x) none = none
  ffff_element_tables_match max_elements (some ffff_hdr_x) (some ffff_hdr_y) = some (
      match_elements (take max_elements ffff_hdr_x.elements)
        (take max_elements ffff_hdr_y.elements))

  unfoldable pub ffff_headers_match : Option Header → Option Header → Bool
  ffff_headers_match none y = false
  ffff_headers_match (some x) none = false
  ffff_headers_match (some x) (some y) =
      same_bytes (take x.header_size (fmt.header_bytes x)) (take x.header_size (fmt.header_bytes y))
