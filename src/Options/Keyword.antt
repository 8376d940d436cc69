-- ===== src/Options/Keyword.antt =====
-- Names and tokens lead to each other.
use bootrom_tools.Base.{
  ℕ, ◌≡◌, ◌≢◌, refl, sym, ◌∙◌, List, [], ◌∷◌, none, some, All, same_bytes, same_bytes_iff, ◌==◌,
  Bool-cases, inl, inr, true, false, ==_iff,
}
use bootrom_tools.Options.{ParseEntry, kw_to_token, token_to_kw}

-- No two entries share a name.
abbrev pub DistinctNames : List ParseEntry → Type 0
DistinctNames [] = Unit
DistinctNames (entry ∷ lookup) = All (λ e. e.string ≢ entry.string) lookup × DistinctNames lookup

token_to_kw-skip :
    (token : ℕ) (entry : ParseEntry) (lookup : List ParseEntry)
    → (token == entry.value) ≡ false
    → token_to_kw token (entry ∷ lookup) ≡ token_to_kw token lookup
unfolding token_to_kw
token_to_kw-skip token entry lookup h = rw h refl

token_to_kw-here :
    (token : ℕ) (entry : ParseEntry) (lookup : List ParseEntry)
    → (token == entry.value) ≡ true
    → token_to_kw token (entry ∷ lookup) ≡ some entry.string
unfolding token_to_kw
token_to_kw-here token entry lookup h = rw h refl

token_to_kw-none : (token : ℕ) → token_to_kw token [] ≡ none
unfolding token_to_kw
token_to_kw-none token = refl

kw_to_token-here :
    (keyword : List ℕ) (entry : ParseEntry) (lookup : List ParseEntry)
    → keyword ≡ entry.string
    → kw_to_token keyword (entry ∷ lookup) ≡ entry.value
unfolding kw_to_token
kw_to_token-here keyword entry lookup h =
    let same = (same_bytes_iff keyword entry.string).1 h in rw same refl

kw_to_token-skip :
    (keyword : List ℕ) (entry : ParseEntry) (lookup : List ParseEntry)
    → keyword ≢ entry.string
    → kw_to_token keyword (entry ∷ lookup) ≡ kw_to_token keyword lookup
unfolding kw_to_token
kw_to_token-skip keyword entry lookup h = elim (Bool-cases (same_bytes keyword entry.string)) [
  | inl same ↦ absurd (h ((same_bytes_iff keyword entry.string).0 same))
  | inr other ↦ rw other refl
]

-- A name that is found for a token is one of the table's.
found_differs :
    (token : ℕ) (keyword name : List ℕ) (lookup : List ParseEntry)
    → All (λ e. e.string ≢ name) lookup
    → token_to_kw token lookup ≡ some keyword
    → keyword ≢ name
found_differs token keyword name [] h e = let result = sym (token_to_kw-none token) ∙ e in cc
found_differs token keyword name (entry ∷ lookup) h e = elim (Bool-cases (token == entry.value)) [
  | inl here ↦
      let result = sym (token_to_kw-here token entry lookup here) ∙ e in
      let same : entry.string ≡ keyword = cc in rw (sym same) h.0
  | inr later ↦
      found_differs token keyword name lookup h.1
        (sym (token_to_kw-skip token entry lookup later) ∙ e)
]

-- In a table whose names are distinct, the name that `token_to_kw` gives for a token is one for
-- which `kw_to_token` gives the token.
pub kw_to_token-token_to_kw :
    (token : ℕ) (keyword : List ℕ) (lookup : List ParseEntry)
    → DistinctNames lookup
    → token_to_kw token lookup ≡ some keyword
    → kw_to_token keyword lookup ≡ token
kw_to_token-token_to_kw token keyword [] h e = let result = sym (token_to_kw-none token) ∙ e in cc
kw_to_token-token_to_kw token keyword (entry ∷ lookup) h e =
    elim (Bool-cases (token == entry.value)) [
      | inl here ↦
          let result = sym (token_to_kw-here token entry lookup here) ∙ e in
          let same : keyword ≡ entry.string = cc in
          kw_to_token-here keyword entry lookup same ∙ sym ((==_iff _ _).0 here)
      | inr later ↦
          let rest = sym (token_to_kw-skip token entry lookup later) ∙ e in
          kw_to_token-skip keyword entry lookup
            (found_differs token keyword entry.string lookup h.0 rest)
          ∙ kw_to_token-token_to_kw token keyword lookup h.1 rest
    ]
