-- ===== src/S2config/File.antt =====
-- Saving a configuration and loading it again.
use bootrom_tools.Base.{
  ℕ, ◌==◌, ==_iff, ap₂, Bool-cases, inl, inr, ◌+◌, ◌<◌, ◌^◌, ap, replicate, length-take, ◌*◌, ◌≤◌,
  ◌≡◌, refl, sym, ◌∙◌, true, List, [], ◌∷◌, ◌++◌, some, arith, length, take, drop, All, take_all,
  flat_bytes, length-append, take-append_length, drop-append_length,
}
use native.Mathlib.Nat.{zero-mul, suc-mul}
use bootrom_tools.S2config.{
  Config, Layout, Key, zero_key, is_config_valid, new_s2config, expand_config_for_more_pubkey,
  save_s2config_to_file, keys_of, load_keys, load_s2config_from_file,
}
use bootrom_tools.S2config.Laws.{IsConfig}

no_keys : (keys : List Key) → length keys ≡ 0 → keys ≡ []
no_keys [] h = refl
no_keys (k ∷ ks) h = absurd (omega arith)

module _ (layout : Layout) where
  -- The bytes in memory of the fixed part say what the fields are, and have the structure's size.
  pub record IsEncoded (config : Config) : Type 0 where
    pub size : length (layout.config_bytes config) ≡ layout.config_size
    pub fields : layout.config_of (layout.config_bytes config) ≡ record config { public_keys = [] }

  pub record IsEncodedKey (key : Key) : Type 0 where
    pub size : length (layout.key_bytes key) ≡ layout.public_key_size
    pub fields : layout.key_of (layout.key_bytes key) ≡ key

  keys_of-bytes :
      (keys : List Key)
      → All IsEncodedKey keys
      → (keys_of layout (length keys) (flat_bytes layout.key_bytes keys) ≡ keys)
        × (length (flat_bytes layout.key_bytes keys) ≡ length keys * layout.public_key_size)
  unfolding keys_of
  keys_of-bytes [] h = (refl, rw zero-mul refl)
  keys_of-bytes (k ∷ ks) h =
      let (later, total) = keys_of-bytes ks h.1 in
      let bytes : List ℕ = layout.key_bytes k in
      let rest : List ℕ = flat_bytes layout.key_bytes ks in
      let first : take layout.public_key_size (bytes ++ rest) ≡ bytes =
        rw (sym h.0.size) (take-append_length bytes rest) in
      let others : drop layout.public_key_size (bytes ++ rest) ≡ rest =
        rw (sym h.0.size) (drop-append_length bytes rest) in
      (
        rw (first, others, h.0.fields, later) refl,
        length-append bytes rest ∙ rw (h.0.size, total, suc-mul) (omega arith),
      )

  expanded :
      (c : Config) (behind : List Key)
      → c.public_keys ≡ []
      → c.number_of_public_keys ≤ length behind
      → layout.config_size
          + (c.number_of_public_keys + c.number_of_public_keys) * layout.public_key_size
        < 2 ^ 32
      → expand_config_for_more_pubkey layout true behind c c.number_of_public_keys
        ≡ some (
            some (record c {
              public_keys =
                  take c.number_of_public_keys behind
                  ++ replicate c.number_of_public_keys (zero_key layout);
            }))
  unfolding expand_config_for_more_pubkey
  expanded c behind bare enough below =
      let same : c.public_keys ++ behind ≡ behind = ap (λ ks. ks ++ behind) bare in
      ground (arith, same, enough, below)

  load_keys-read :
      (c : Config) (behind keys : List Key) (rest : List ℕ)
      → c.public_keys ≡ []
      → c.number_of_public_keys ≤ length behind
      → layout.config_size
          + (c.number_of_public_keys + c.number_of_public_keys) * layout.public_key_size
        < 2 ^ 32
      → length keys ≡ c.number_of_public_keys
      → keys_of layout c.number_of_public_keys rest ≡ keys
      → length rest ≡ c.number_of_public_keys * layout.public_key_size
      → load_keys layout true behind c rest
        ≡ some (
            some (record c {
              public_keys = keys ++ replicate c.number_of_public_keys (zero_key layout);
            }))
  unfolding load_keys
  load_keys-read c behind keys rest bare enough below count read total =
      let n : ℕ = c.number_of_public_keys in
      let zeros : List Key = replicate n (zero_key layout) in
      let copied : length (take n behind) ≡ n = omega (arith, length-take n behind) in
      let room : drop n (take n behind ++ zeros) ≡ zeros =
        ap (λ (k : ℕ). drop k (take n behind ++ zeros)) (sym copied)
        ∙ drop-append_length (take n behind) zeros in
      elim (Bool-cases (n == 0)) [
        | inl done ↦
            let zero : n ≡ 0 = (==_iff n 0).0 done in
            let same : keys ++ zeros ≡ c.public_keys =
              ap₂ (λ (ks : List Key) (k : ℕ). ks ++ replicate k (zero_key layout))
                (no_keys keys (count ∙ zero)) zero
              ∙ sym bare in
            rw (done, same) refl
        | inr more ↦
            rw more (ground (arith, expanded c behind bare enough below, room, read, total))
      ]

  -- A well-formed configuration that is saved to a file and loaded again is the same, but that its
  -- allocation has room for as many keys again, which are zeros: where the allocations succeed and
  -- have sizes below 2^32, the bytes of the structures in memory say what their fields are, and as
  -- many keys as there are can be read behind the allocation for the fixed part, which is done
  -- whatever they hold.
  pub load-save :
      (config : Config)
      → IsConfig layout config
      → IsEncoded config
      → All IsEncodedKey config.public_keys
      → (behind : List Key) → config.number_of_public_keys ≤ length behind
      → layout.config_size
          + (config.number_of_public_keys + config.number_of_public_keys) * layout.public_key_size
        < 2 ^ 32
      → (file : List ℕ) × (save_s2config_to_file layout config ≡ some file)
        × (load_s2config_from_file layout true true true behind (some file)
            ≡ some (
                some (record config {
                  public_keys =
                      config.public_keys
                      ++ replicate config.number_of_public_keys (zero_key layout);
                })))
  unfolding save_s2config_to_file load_s2config_from_file new_s2config is_config_valid
  load-save config w e keys behind enough below =
      let n : ℕ = config.number_of_public_keys in
      let all : take n config.public_keys ≡ config.public_keys =
        take_all config.public_keys n (omega (arith, w.counted)) in
      let fixed : List ℕ = layout.config_bytes config in
      let rest : List ℕ = flat_bytes layout.key_bytes config.public_keys in
      let head : take layout.config_size (fixed ++ rest) ≡ fixed =
        rw (sym e.size) (take-append_length fixed rest) in
      let tail : drop layout.config_size (fixed ++ rest) ≡ rest =
        rw (sym e.size) (drop-append_length fixed rest) in
      let back = keys_of-bytes config.public_keys keys in
      let read : keys_of layout n rest ≡ config.public_keys = rw (sym w.counted) back.0 in
      let total : length rest ≡ n * layout.public_key_size = rw (sym w.counted) back.1 in
      let longer : layout.config_size ≤ length (fixed ++ rest) =
        omega (arith, e.size, length-append fixed rest) in
      let loaded =
        load_keys-read (record config { public_keys = [] }) behind config.public_keys rest refl
          enough below w.counted read total in
      (
        fixed ++ rest,
        ground (arith, w.valid, all),
        rw (head, tail, e.fields) (ground (arith, w.valid, longer, loaded)),
      )
