-- ===== src/S2config.antt =====
-- src/common/s2cfgcore.c: the configuration of the second-stage firmware. Its structures are
-- declared by a header that is not in the repository; their sizes and their bytes in memory are
-- the record `Layout`. Each call of `malloc` has a Boolean that says whether it succeeds.
pub mod Laws
pub mod File
use bootrom_tools.Base.{
  ℕ, zero, suc, ◌+◌, ◌-◌, ◌*◌, ◌%◌, ◌^◌, Bool, true, false, ◌&&◌, not, List, [], ◌∷◌, ◌++◌, Option,
  none, some, ltb, leb, ◌==◌, if◌then◌else◌, length, take, drop, replicate, same_bytes, flat_bytes,
}
use bootrom_tools.Util.Fill.{is_constant_fill}
use bootrom_tools.Util.Text.{strncpy}

-- `crypto_public_key`; the name is the whole buffer.
pub record Key : Type 0 where
  pub key_type : ℕ
  pub key_name : List ℕ
  pub key : List ℕ

-- `secondstage_cfgdata`, with the keys that its allocation has room for.
pub record Config : Type 0 where
  pub sentinel : List ℕ
  pub disable_jtag : ℕ
  pub use_fake_ims : ℕ
  pub fake_ims : List ℕ
  pub use_fake_ara_vidpid : ℕ
  pub fake_ara_vid : ℕ
  pub fake_ara_pid : ℕ
  pub number_of_public_keys : ℕ
  pub public_keys : List Key

-- Sizes, and the bytes in memory of the fixed part and of a key.
pub record Layout : Type 0 where
  pub secondstage_cfg_sentinel : List ℕ
  pub fake_ims_size : ℕ
  pub key_name_size : ℕ
  pub key_size : ℕ
  pub config_size : ℕ
  pub public_key_size : ℕ
  pub config_bytes : Config → List ℕ
  pub config_of : List ℕ → Config
  pub key_bytes : Key → List ℕ
  pub key_of : List ℕ → Key

module _ (layout : Layout) where
  -- A null pointer to the descriptor, or inside it, is `none`.
  unfoldable pub is_config_valid : Option Config → Bool
  is_config_valid none = false
  is_config_valid (some config) = same_bytes config.sentinel layout.secondstage_cfg_sentinel

  unfoldable pub new_s2config : Bool → Bool → Option Config
  new_s2config first_malloc second_malloc =
      if first_malloc && second_malloc
      then some (record {
        sentinel = layout.secondstage_cfg_sentinel;
        disable_jtag = 0;
        use_fake_ims = 0;
        fake_ims = replicate layout.fake_ims_size 0;
        use_fake_ara_vidpid = 0;
        fake_ara_vid = 0;
        fake_ara_pid = 0;
        number_of_public_keys = 0;
        public_keys = [];
      })
      else none

  -- The allocation of the copy has the keys that the count says.
  unfoldable pub copy_s2config : Bool → Bool → Option Config → Option Config
  copy_s2config first_malloc second_malloc none = none
  copy_s2config first_malloc second_malloc (some config) =
      if is_config_valid (some config) && (first_malloc && second_malloc)
      then some
          (record config { public_keys = take config.number_of_public_keys config.public_keys })
      else none

  abbrev pub zero_key : Key
  zero_key = record {
    key_type = 0;
    key_name = replicate layout.key_name_size 0;
    key = replicate layout.key_size 0;
  }

  -- The keys of a new allocation for more of them: those counted so far, then zeros. `behind` is
  -- what can be read as keys behind the old allocation: the copy goes by the count, and past the
  -- allocation where that has room for fewer. The inner `none` is an allocation that fails; the
  -- outer one is a copy from memory that cannot be read, or sizes that wrap in `uint32_t`.
  unfoldable pub expand_config_for_more_pubkey :
      Bool → List Key → Config → ℕ → Option (Option Config)
  expand_config_for_more_pubkey malloc_succeeds behind config num_of_keys =
      let count = config.number_of_public_keys in
      let old = config.public_keys ++ behind in
      if leb (2 ^ 32) (layout.config_size + (count + num_of_keys) * layout.public_key_size)
      then none
      else if not malloc_succeeds
      then some none
      else if ltb (length old) count
      then none
      else some
          (some (record config { public_keys = take count old ++ replicate num_of_keys zero_key }))

  -- The key at the index that had been the count: `strcpy` of the name with its terminator, and
  -- the bytes of the modulus, which start at the buffer's start.
  abbrev pub filled_key : ℕ → List ℕ → List ℕ → Key
  filled_key key_type key_name modulus = record {
    key_type = key_type;
    key_name = strncpy (replicate layout.key_name_size 0) key_name (length key_name + 1);
    key = strncpy (replicate layout.key_size 0) modulus (length modulus);
  }

  -- Whether it succeeded, and the new configuration; `none` is a write past the key's buffer, or an
  -- access past the allocation.
  -- `modulus` is what OpenSSL reads from the PEM file: nothing if there is no file or no key.
  unfoldable pub s2config_add_public_key :
      Bool → Option Config → Option (List ℕ) → ℕ → List ℕ → Option (Bool × Option Config)
  s2config_add_public_key malloc_succeeds none modulus key_type key_name = some (false, none)
  s2config_add_public_key malloc_succeeds (some config) modulus key_type key_name =
      if not (is_config_valid (some config))
      then some (false, some config)
      else if leb layout.key_name_size (length key_name)
      then some (false, some config)
      else elim modulus [
        | none ↦ some (false, some config)
        | some n ↦ elim (expand_config_for_more_pubkey malloc_succeeds [] config 1) [
          | none ↦ none
          | some none ↦ some (false, some config)
          | some (some larger) ↦
              if ltb layout.key_size (length n)
              then none
              else some (
                true,
                some (record larger {
                  number_of_public_keys = config.number_of_public_keys + 1;
                  public_keys =
                      take config.number_of_public_keys config.public_keys
                      ++ (filled_key key_type key_name n ∷ []);
                }),
              )
        ]
      ]

  -- `ims` is null or `len` bytes long.
  unfoldable pub s2config_set_fake_ims : Config → Option (List ℕ) → Bool × Config
  s2config_set_fake_ims config none = (false, config)
  s2config_set_fake_ims config (some ims) =
      if not (is_config_valid (some config))
      then (false, config)
      else if not (length ims == layout.fake_ims_size)
      then (false, config)
      else if is_constant_fill ims 0
      then (true, record config { use_fake_ims = 0 })
      else (true, record config { use_fake_ims = 1; fake_ims = ims })

  -- On success the function ends without a return statement: no status.
  unfoldable pub s2config_set_fake_ara_vidpid : Config → ℕ → ℕ → ℕ → Option Bool × Config
  s2config_set_fake_ara_vidpid config use_fake_ara_vidpid fake_ara_vid fake_ara_pid =
      if not (is_config_valid (some config)) then (some false, config) else (
        none,
        record config {
          use_fake_ara_vidpid = use_fake_ara_vidpid;
          fake_ara_vid = fake_ara_vid;
          fake_ara_pid = fake_ara_pid;
        },
      )

  -- What a file holds after a save that can write to it; `none` where nothing is written.
  unfoldable pub save_s2config_to_file : Config → Option (List ℕ)
  save_s2config_to_file config =
      if is_config_valid (some config)
      then some (
          layout.config_bytes config
          ++ flat_bytes layout.key_bytes (take config.number_of_public_keys config.public_keys))
      else none

  -- `n` structures of `size` bytes each, read from a file.
  unfoldable pub keys_of : ℕ → List ℕ → List Key
  keys_of zero bytes = []
  keys_of (suc n) bytes =
      layout.key_of (take layout.public_key_size bytes)
      ∷ keys_of n (drop layout.public_key_size bytes)

  -- The keys that follow the fixed part in a file. The allocation that the fixed part was read into
  -- has room for no key, so that the copy of `expand_config_for_more_pubkey` reads `behind` it, as
  -- many keys as the file counts; the new allocation has room for twice as many.
  unfoldable pub load_keys : Bool → List Key → Config → List ℕ → Option (Option Config)
  load_keys malloc_succeeds behind config rest =
      let num_keys = config.number_of_public_keys in
      if num_keys == 0
      then some (some config)
      else elim (expand_config_for_more_pubkey malloc_succeeds behind config num_keys) [
        | none ↦ none
        | some none ↦ some none
        | some (some larger) ↦
            if ltb (length rest) (num_keys * layout.public_key_size)
            then some none
            else some (
                some (record larger {
                  public_keys = keys_of num_keys rest ++ drop num_keys larger.public_keys;
                }))
      ]

  -- The file is `none` where it cannot be opened. The outer `none` is an access to
  -- memory that cannot be read, or sizes that wrap.
  unfoldable pub load_s2config_from_file :
      Bool → Bool → Bool → List Key → Option (List ℕ) → Option (Option Config)
  load_s2config_from_file first_malloc second_malloc third_malloc behind none = some none
  load_s2config_from_file first_malloc second_malloc third_malloc behind (some file) =
      elim (new_s2config first_malloc second_malloc) [
        | none ↦ some none
        | some _ ↦
            let config = layout.config_of (take layout.config_size file) in
            let rest = drop layout.config_size file in
            if ltb (length file) layout.config_size
            then some none
            else if not (is_config_valid (some config))
            then some none
            else load_keys third_malloc behind config rest
      ]
