-- ===== src/Ims/Generate/Stored.antt =====
-- The line that the generator writes and the row that it stores belong together.
use bootrom_tools.Base.{
  ℕ, ◌+◌, ◌*◌, length-take, ◌≤◌, ◌<◌, ◌≡◌, ◌∙◌, refl, sym, ap, Bool, true, List, ◌++◌, Option, none,
  some, arith, length, ◌==◌, ==_iff,
}
use bootrom_tools.Ims.{Crypto, IsIncrement}
use bootrom_tools.Ims.Hash.{hash_it, epuid_from}
use bootrom_tools.Ims.Text.{ims_write}
use bootrom_tools.Ims.Text.RoundTrip.{line_text, ims_write-line_text}
use bootrom_tools.Ims.Keys.{calc_epvk, calc_esvk, public_modulus}
use bootrom_tools.Ims.Errk.{recover_errk}
use bootrom_tools.Ims.Database.{Sqlite, Octet, db_add_keyset, db_get_keyset}
use bootrom_tools.Ims.Database.Lookup.{IsStore, db_get_keyset-db_add_keyset}
use bootrom_tools.Ims.Generate.{Keys, calculate_keys, State, search_ims, store_ims, ims_generate}
use bootrom_tools.Ims.Generate.Candidate.{IsBuffer}
use bootrom_tools.Ims.Generate.Keyset.{IsGenerated, search_ims-IsGenerated}

module _ (crypto : Crypto) (sqlite : Sqlite) (draws fuel capacity : ℕ) (sample opened : Bool)
    (s : State crypto sqlite) where
  pub generate_none :
      search_ims crypto sqlite draws fuel sample s.db s.ims s.rng ≡ none
      → ims_generate crypto sqlite draws fuel sample opened capacity s ≡ none
  unfolding ims_generate
  generate_none h = ground (arith, h)

  pub generate_some :
      (ims : List ℕ) (keys : Keys) (rng : crypto.Rng)
      → search_ims crypto sqlite draws fuel sample s.db s.ims s.rng ≡ some (ims, (keys, rng))
      → ims_generate crypto sqlite draws fuel sample opened capacity s
        ≡ some (store_ims crypto sqlite opened capacity ims keys rng s)
  unfolding ims_generate
  generate_some ims keys rng h = ground (arith, h)

  pub store_written :
      (ims : List ℕ) (keys : Keys) (rng : crypto.Rng) (out : List ℕ)
      → ims_write opened capacity ims s.out ≡ (true, out)
      → store_ims crypto sqlite opened capacity ims keys rng s ≡ (
          let added =
            db_add_keyset crypto sqlite keys.ep_uid keys.epvk keys.esvk keys.erpk_mod s.db in
          (added.0 == 0, record { out = out; db = added.1; ims = ims; rng = rng }))
  unfolding store_ims
  store_written ims keys rng out h = ground (arith, h)

-- Room for every key that the libraries can give, hashes of 32 bytes and two digits for a byte.
pub record HasRoom (crypto : Crypto) (o1 o2 o3 : Octet) : Type 0 where
  pub hash_size : (bytes : List ℕ) → length (crypto.sha256 bytes) ≡ 32
  pub digits : (bytes : List ℕ) → length (crypto.to_hex bytes) ≡ 2 * length bytes
  pub epvk_room : (key : List ℕ) → length (crypto.public_448 key) ≤ o1.max
  pub esvk_room : (key : List ℕ) → length (crypto.public_25519 key) ≤ o2.max
  pub erpk_room : (x : crypto.FF) → length (crypto.to_octet x) ≤ o3.max

keys-digits :
    (crypto : Crypto) (o1 o2 o3 : Octet) (sample : Bool) (ims : List ℕ) (keys : Keys)
    → HasRoom crypto o1 o2 o3
    → calculate_keys crypto sample ims ≡ keys
    → length (crypto.to_hex keys.ep_uid) ≡ 16
unfolding calculate_keys epuid_from hash_it
keys-digits crypto o1 o2 o3 sample ims keys room h =
    rw (sym h) (room.digits _ ∙ rw (length-take, room.hash_size) refl)

keys-room :
    (crypto : Crypto) (o1 o2 o3 : Octet) (sample : Bool) (ims : List ℕ) (keys : Keys)
    → HasRoom crypto o1 o2 o3
    → calculate_keys crypto sample ims ≡ keys
    → (length keys.epvk ≤ o1.max) × ((length keys.esvk ≤ o2.max) × (length keys.erpk_mod ≤ o3.max))
unfolding calculate_keys calc_epvk calc_esvk recover_errk public_modulus
keys-room crypto o1 o2 o3 sample ims keys room h =
    rw (sym h) (room.epvk_room _, (room.esvk_room _, room.erpk_room _))

module _ (crypto : Crypto) (random : (rng : crypto.Rng) → (crypto.rand_byte rng).0 < 256)
    (law : IsIncrement crypto) (sqlite : Sqlite) (store : IsStore sqlite) (sample : Bool)
    (draws : ℕ) where
  -- A new line of the output file for the IMS that is left in the buffer, and the row for it.
  pub record IsStored (s s' : State crypto sqlite) (o1 o2 o3 : Octet) : Type 0 where
    pub keys : Keys
    pub appended : s'.out ≡ s.out ++ line_text s'.ims
    pub generated : IsGenerated crypto random law sample sqlite draws s.db s'.ims keys
    pub fetched : db_get_keyset crypto sqlite s'.db keys.ep_uid (some o1) (some o2) (some o3) ≡ (
      0,
      (
        some (record o1 { val = keys.epvk }),
        (some (record o2 { val = keys.esvk }), some (record o3 { val = keys.erpk_mod })),
      ),
    )

  generate_by-IsStored :
      (fuel capacity : ℕ) (s s' : State crypto sqlite) (o1 o2 o3 : Octet)
      (r : Option (List ℕ × (Keys × crypto.Rng)))
      → IsBuffer s.ims
      → length s.out + 281 ≤ capacity
      → HasRoom crypto o1 o2 o3
      → search_ims crypto sqlite draws fuel sample s.db s.ims s.rng ≡ r
      → ims_generate crypto sqlite draws fuel sample true capacity s ≡ some (true, s')
      → IsStored s s' o1 o2 o3
  generate_by-IsStored fuel capacity s s' o1 o2 o3 none buffer space room e h =
      let result = sym (generate_none crypto sqlite draws fuel capacity sample true s e) ∙ h in cc
  generate_by-IsStored fuel capacity s s' o1 o2 o3 (some (ims, (keys, rng))) buffer space room e h =
      let g =
        search_ims-IsGenerated crypto random law sample sqlite draws s.db fuel s.ims ims keys s.rng
          rng buffer e in
      let added = db_add_keyset crypto sqlite keys.ep_uid keys.epvk keys.esvk keys.erpk_mod s.db in
      let written =
        store_written crypto sqlite draws fuel capacity sample true s ims keys rng
          (s.out ++ line_text ims) (ims_write-line_text capacity ims s.out space) in
      let result =
        ap some (sym written)
        ∙ (sym (generate_some crypto sqlite draws fuel capacity sample true s ims keys rng e)
            ∙ h) in
      let status : (added.0 == 0) ≡ true = cc in
      let same : record { out = s.out ++ line_text ims; db = added.1; ims = ims; rng = rng } ≡ s' =
        cc in
      let fits = keys-room crypto o1 o2 o3 sample ims keys room g.derived in
      rw (sym same) (record {
        keys = keys;
        appended = refl;
        generated = g;
        fetched =
            db_get_keyset-db_add_keyset crypto sqlite store s.db keys.ep_uid keys.epvk keys.esvk
              keys.erpk_mod o1 o2 o3 (keys-digits crypto o1 o2 o3 sample ims keys room g.derived)
              g.unused ((==_iff _ _).0 status) fits.0 fits.1.0 fits.1.1;
      })

  pub ims_generate-IsStored :
      (fuel capacity : ℕ) (s s' : State crypto sqlite) (o1 o2 o3 : Octet)
      → IsBuffer s.ims
      → length s.out + 281 ≤ capacity
      → HasRoom crypto o1 o2 o3
      → ims_generate crypto sqlite draws fuel sample true capacity s ≡ some (true, s')
      → IsStored s s' o1 o2 o3
  ims_generate-IsStored fuel capacity s s' o1 o2 o3 buffer space room h =
      generate_by-IsStored fuel capacity s s' o1 o2 o3 _ buffer space room refl h
