-- ===== src/Ffff/Image/Build/Payload.antt =====
-- A step of the loop of `new_ffff_romimage`: the payload of its element.
use bootrom_tools.Base.{
  ℕ, ◌≡◌, ◌≢◌, inl, inr, refl, sym, ◌∙◌, Bool, true, false, List, Option, none, some, ltb,
  if◌then◌else◌, length, elim_some,
}
use bootrom_tools.Files.{System, store, load_file}
use bootrom_tools.Ffff.{Format}
use bootrom_tools.Ffff.Cache.{Entry, Cache}
use bootrom_tools.Ffff.Load.{Status, error, stored, advanced, entry_at_iterator, load_entry}
use bootrom_tools.Ffff.Image.Build.{Layout, next_into}
use bootrom_tools.Ffff.Image.Build.Slots.{load_file_all, slot, if_some}

module _ (sys : System) (fmt : Format) (layout : Layout) where
  abbrev pub StoresPayload : Entry sys → List ℕ → List ℕ → Type 0
  StoresPayload e blob loaded =
      (name : sys.FileName) × (bytes : List ℕ) × (e.filename ≡ some name)
      × (load_file sys name e.element.element_length ≡ (bytes, true))
      × (length bytes ≡ e.element.element_length)
      × (store blob e.element.element_location bytes ≡ some loaded)

  -- The payload of an entry is its whole file.
  pub load_entry-stored :
      (e : Entry sys) (blob loaded : List ℕ)
      → load_entry sys e blob ≡ some (true, loaded)
      → StoresPayload e blob loaded
  unfolding load_entry
  load_entry-stored e blob loaded h = by_name e.filename refl h
    where
      by_name :
          (o : Option sys.FileName)
          → e.filename ≡ o
          → ◌≡◌ {A = Option (Bool × List ℕ)}
              (elim o [
                | none ↦ some (false, blob)
                | some name ↦
                    let (bytes, success) = load_file sys name e.element.element_length in
                    elim (store blob e.element.element_location bytes) [
                      | none ↦ none
                      | some b ↦ some (success, b)
                    ]
              ])
              (some (true, loaded))
          → StoresPayload e blob loaded
      by_name none named g = absurd (cc g)
      by_name (some name) named g =
          let read = load_file sys name e.element.element_length in
          let (b, found, g1) = elim_some (store blob e.element.element_location read.0) _ g in
          let whole : read ≡ (read.0, true) = cc in
          (
            name,
            read.0,
            named,
            whole,
            load_file_all sys name e.element.element_length read.0 whole,
            cc,
          )

  pub next_into-found :
      (k : ℕ) (c : Cache sys) (e : Entry sys) (blob : List ℕ)
      → entry_at_iterator sys (advanced sys c) ≡ some e
      → next_into sys fmt layout k c blob ≡ (
          if ltb (length blob) e.element.element_length
          then some (error, blob)
          else elim (store blob (slot sys fmt layout k) (fmt.element_bytes e.element)) [
            | none ↦ none
            | some described ↦ elim (load_entry sys e described) [
              | none ↦ none
              | some (success, loaded) ↦ some (if success then stored else error, loaded)
            ]
          ])
  unfolding next_into
  next_into-found k c e blob found = rw (next_into, found) refl

  -- A step that is no error stores the descriptor and then the payload.
  pub next_into-stored :
      (k : ℕ) (c : Cache sys) (e : Entry sys) (blob loaded : List ℕ) (status : Status)
      → entry_at_iterator sys (advanced sys c) ≡ some e
      → next_into sys fmt layout k c blob ≡ some (status, loaded)
      → status ≢ error
      → (status ≡ stored)
        × (described : List ℕ) × (store blob (slot sys fmt layout k) (fmt.element_bytes e.element)
            ≡ some described)
        × (load_entry sys e described ≡ some (true, loaded))
  unfolding next_into
  next_into-stored k c e blob loaded status found h good =
      elim (if_some (ltb (length blob) e.element.element_length) _ _
        (sym (next_into-found k c e blob found) ∙ h)) [
          | inl (outside, g) ↦ absurd (good (cc))
          | inr (inside, g) ↦
              let (described, written, g1) =
                elim_some (store blob (slot sys fmt layout k) (fmt.element_bytes e.element)) _ g in
              let ((success, loaded'), read, g2) = elim_some (load_entry sys e described) _ g1 in
              by_success described success loaded' written read g2
        ]
    where
      by_success :
          (described : List ℕ) (success : Bool) (loaded' : List ℕ)
          → store blob (slot sys fmt layout k) (fmt.element_bytes e.element) ≡ some described
          → load_entry sys e described ≡ some (success, loaded')
          → ◌≡◌ {A = Option (Status × List ℕ)}
              (some (if success then stored else error, loaded'))
              (some (status, loaded))
          → (status ≡ stored)
            × (described : List ℕ) × (store blob
                  (slot sys fmt layout k)
                  (fmt.element_bytes e.element)
                ≡ some described)
            × (load_entry sys e described ≡ some (true, loaded))
      by_success described false loaded' written read g = absurd (good (cc))
      by_success described true loaded' written read g = (cc, described, written, cc)
