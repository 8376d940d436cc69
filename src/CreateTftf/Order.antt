-- ===== src/CreateTftf/Order.antt =====
-- The order of the sections, and what each operation on the section cache does to it.
use bootrom_tools.Base.{
  ℕ, ◌≡◌, ◌⊎◌, refl, sym, ap, ◌∙◌, List, [], ◌∷◌, ◌++◌, map, Option, none, some, All, inl, inr,
}
use bootrom_tools.Files.{System}
use bootrom_tools.Tftf.{Format}
use bootrom_tools.Tftf.Cache.{Entry, opened}
use bootrom_tools.Tftf.Cache.Abstract.{Sections, all_of, begun, changed}

-- The section types are different.
pub record HasDistinctTypes (fmt : Format) : Type 0 where
  pub code_signature : fmt.section_raw_code ≡ fmt.section_signature → ⊥
  pub code_certificate : fmt.section_raw_code ≡ fmt.section_certificate → ⊥
  pub data_signature : fmt.section_raw_data ≡ fmt.section_signature → ⊥
  pub data_certificate : fmt.section_raw_data ≡ fmt.section_certificate → ⊥
  pub manifest_signature : fmt.section_manifest ≡ fmt.section_signature → ⊥
  pub manifest_certificate : fmt.section_manifest ≡ fmt.section_certificate → ⊥
  pub manifest_code : fmt.section_manifest ≡ fmt.section_raw_code → ⊥
  pub manifest_data : fmt.section_manifest ≡ fmt.section_raw_data → ⊥

map_append : {A B : Type 0} (f : A → B) (xs ys : List A) → map f (xs ++ ys) ≡ map f xs ++ map f ys
map_append f [] ys = refl
map_append f (x ∷ xs) ys = ap (◌∷◌ (f x)) (map_append f xs ys)

pub All-append :
    {A : Type 0} (P : A → Type 0) (xs ys : List A) → All P xs → All P ys → All P (xs ++ ys)
All-append P [] ys hx hy = hy
All-append P (x ∷ xs) ys hx hy = (hx.0, All-append P xs ys hx.1 hy)

pub All-left : {A : Type 0} (P : A → Type 0) (xs ys : List A) → All P (xs ++ ys) → All P xs
All-left P [] ys h = tt
All-left P (x ∷ xs) ys h = (h.0, All-left P xs ys h.1)

pub All-right : {A : Type 0} (P : A → Type 0) (xs ys : List A) → All P (xs ++ ys) → All P ys
All-right P [] ys h = h
All-right P (x ∷ xs) ys h = All-right P xs ys h.1

module _ (fmt : Format) where
  abbrev pub IsRestricted : ℕ → Type 0
  IsRestricted type = (type ≡ fmt.section_signature) ⊎ (type ≡ fmt.section_certificate)

  abbrev pub IsCodeOrData : ℕ → Type 0
  IsCodeOrData type = (type ≡ fmt.section_raw_code) ⊎ (type ≡ fmt.section_raw_data)

  module _ (distinct : HasDistinctTypes fmt) where
    pub code_plain : IsRestricted fmt.section_raw_code → ⊥
    code_plain (inl e) = distinct.code_signature e
    code_plain (inr e) = distinct.code_certificate e

    pub data_plain : IsRestricted fmt.section_raw_data → ⊥
    data_plain (inl e) = distinct.data_signature e
    data_plain (inr e) = distinct.data_certificate e

    pub manifest_plain : IsRestricted fmt.section_manifest → ⊥
    manifest_plain (inl e) = distinct.manifest_signature e
    manifest_plain (inr e) = distinct.manifest_certificate e

    pub manifest_other : IsCodeOrData fmt.section_manifest → ⊥
    manifest_other (inl e) = distinct.manifest_code e
    manifest_other (inr e) = distinct.manifest_data e

  -- No code or data stands behind a signature or a certificate.
  abbrev pub IsOrdered : List ℕ → Type 0
  IsOrdered [] = Unit
  IsOrdered (type ∷ types) =
      (IsRestricted type → All (λ t. IsCodeOrData t → ⊥) types) × IsOrdered types

  pub IsOrdered-plain :
      (types : List ℕ) (type : ℕ)
      → (IsCodeOrData type → ⊥)
      → IsOrdered types
      → IsOrdered (types ++ (type ∷ []))
  IsOrdered-plain [] type plain h = ((λ r. tt), tt)
  IsOrdered-plain (t ∷ types) type plain h = (
    (λ r. All-append (λ t. IsCodeOrData t → ⊥) types (type ∷ []) (h.0 r) (plain, tt)),
    IsOrdered-plain types type plain h.1,
  )

  pub IsOrdered-first :
      (types : List ℕ) (type : ℕ)
      → All (λ t. IsRestricted t → ⊥) types
      → IsOrdered types
      → IsOrdered (types ++ (type ∷ []))
  IsOrdered-first [] type none_yet h = ((λ r. tt), tt)
  IsOrdered-first (t ∷ types) type none_yet h =
      ((λ r. absurd (none_yet.0 r)), IsOrdered-first types type none_yet.1 h.1)

  module _ (sys : System) where
    abbrev pub type_of : Entry sys → ℕ
    type_of e = e.section.section_type

    abbrev pub types_of : Sections sys → List ℕ
    types_of a = map type_of (all_of sys a)

    -- A signature or certificate has the load address that is ignored.
    abbrev pub IsUnplaced : Entry sys → Type 0
    IsUnplaced e =
        IsRestricted (type_of e) → e.section.section_load_address ≡ fmt.data_address_to_be_ignored

    pub types_of-begun :
        (t : ℕ) (f : Option sys.FileName) (address : ℕ) (d : Entry sys) (a : Sections sys)
        → types_of (begun sys (opened sys t f address d) a) ≡ types_of a ++ (t ∷ [])
    types_of-begun t none address d a = map_append type_of (all_of sys a) _
    types_of-begun t (some name) address d a = map_append type_of (all_of sys a) _

    -- What keeps the types of entries keeps those of the cache.
    pub types_of-changed :
        (f : Entry sys → Entry sys) (a : Sections sys)
        → ((e : Entry sys) → type_of (f e) ≡ type_of e)
        → types_of (changed sys f a) ≡ types_of a
    types_of-changed f a same = by_pending a.done a.pending
      where
        by_pending :
            (done : List (Entry sys)) (pending : Option (Entry sys))
            → types_of (changed sys f (record { done = done; pending = pending }))
              ≡ types_of (record { done = done; pending = pending })
        by_pending done none = refl
        by_pending done (some e) =
            map_append type_of done (f e ∷ [])
            ∙ (ap (λ t. map type_of done ++ (t ∷ [])) (same e)
                ∙ sym (map_append type_of done (e ∷ [])))
