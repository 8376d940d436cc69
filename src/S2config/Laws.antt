-- ===== src/S2config/Laws.antt =====
-- What the changes of a configuration do.
use bootrom_tools.Base.{
  ℕ, ◌+◌, ◌*◌, ◌^◌, append-nil, ◌≤◌, ◌<◌, ◌≡◌, ◌≢◌, ◌↔◌, ◌⊎◌, refl, true, List, [], ◌∷◌, ◌++◌, some,
  arith, length, replicate, take_all, length-append, Bool-cases, inl, inr,
}
use bootrom_tools.Util.Fill.{is_constant_fill, is_constant_fill_iff}
use bootrom_tools.S2config.{
  Config, Layout, is_config_valid, filled_key, expand_config_for_more_pubkey,
  s2config_add_public_key, s2config_set_fake_ims,
}

module _ (layout : Layout) where
  -- The sentinel stands and the count is the number of keys.
  pub record IsConfig (config : Config) : Type 0 where
    pub valid : is_config_valid layout (some config) ≡ true
    pub counted : length config.public_keys ≡ config.number_of_public_keys

  -- A key that is read from its file, whose name and modulus fit their buffers, is, where the
  -- size of the new allocation does not wrap, appended to the
  -- keys of the configuration, which stays well formed.
  add_public_key_appends :
      (config : Config) (modulus key_name : List ℕ) (key_type : ℕ)
      → IsConfig config
      → length key_name < layout.key_name_size
      → length modulus ≤ layout.key_size
      → layout.config_size + (config.number_of_public_keys + 1) * layout.public_key_size < 2 ^ 32
      → (c : Config) × (s2config_add_public_key layout true
            (some config)
            (some modulus)
            key_type
            key_name
          ≡ some (true, some c))
        × (c.public_keys ≡ config.public_keys ++ (filled_key layout key_type key_name modulus ∷ []))
        × IsConfig c
  unfolding s2config_add_public_key expand_config_for_more_pubkey is_config_valid
  add_public_key_appends config modulus key_name key_type w name fits below = (
    record config {
      number_of_public_keys = config.number_of_public_keys + 1;
      public_keys = config.public_keys ++ (filled_key layout key_type key_name modulus ∷ []);
    },
    ground (
      arith,
      w.valid,
      w.counted,
      below,
      append-nil config.public_keys,
      take_all config.public_keys config.number_of_public_keys,
    ),
    refl,
    record {
      valid = w.valid;
      counted = omega (
        arith,
        w.counted,
        length-append config.public_keys (filled_key layout key_type key_name modulus ∷ []),
      );
    },
  )

  -- On a valid configuration, an IMS of the right size is accepted; the configuration uses it
  -- exactly when it is not all zeros, and then holds it.
  pub set_fake_ims_lem :
      (config : Config) (ims : List ℕ)
      → is_config_valid layout (some config) ≡ true
      → length ims ≡ layout.fake_ims_size
      → (c : Config) × (s2config_set_fake_ims layout config (some ims) ≡ (true, c))
        × ((c.use_fake_ims ≡ 1) ↔ (ims ≢ replicate (length ims) 0))
        × ((c.use_fake_ims ≡ 0) ⊎ (c.fake_ims ≡ ims))
  unfolding s2config_set_fake_ims
  set_fake_ims_lem config ims valid size = elim (Bool-cases (is_constant_fill ims 0)) [
    | inl zeros ↦ (
      record config { use_fake_ims = 0 },
      ground arith,
      ground (arith, is_constant_fill_iff ims 0),
      inl refl,
    )
    | inr others ↦ (
      record config { use_fake_ims = 1; fake_ims = ims },
      ground arith,
      ground (arith, is_constant_fill_iff ims 0),
      inr refl,
    )
  ]
