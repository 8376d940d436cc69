-- ===== src/Tests/S2config.antt =====
-- src/common/s2cfgcore.c at a layout of small structures and one key.
use bootrom_tools.Base.{ℕ, ◌≡◌, refl, true, List, arith, [], ◌∷◌, ◌++◌, some, take, drop, get_or}
use bootrom_tools.S2config.{
  Config, Layout, Key, zero_key, is_config_valid, save_s2config_to_file, load_s2config_from_file,
}
use bootrom_tools.S2config.Laws.{IsConfig}
use bootrom_tools.S2config.File.{load-save}

-- Structures of single-byte fields, with an IMS of two bytes, names of three and keys of two.
abbrev layout : Layout
layout = record {
  secondstage_cfg_sentinel = b'S' ∷ b'2' ∷ [];
  fake_ims_size = 2;
  key_name_size = 3;
  key_size = 2;
  config_size = 10;
  public_key_size = 6;
  config_bytes = λ c.
      take 2 c.sentinel
      ++ (c.disable_jtag ∷ c.use_fake_ims ∷ take 2 c.fake_ims)
      ++ (c.use_fake_ara_vidpid ∷ c.fake_ara_vid ∷ c.fake_ara_pid ∷ c.number_of_public_keys ∷ []);
  config_of = λ bytes. record {
    sentinel = take 2 bytes;
    disable_jtag = get_or bytes 2 0;
    use_fake_ims = get_or bytes 3 0;
    fake_ims = take 2 (drop 4 bytes);
    use_fake_ara_vidpid = get_or bytes 6 0;
    fake_ara_vid = get_or bytes 7 0;
    fake_ara_pid = get_or bytes 8 0;
    number_of_public_keys = get_or bytes 9 0;
    public_keys = [];
  };
  key_bytes = λ k. k.key_type ∷ take 3 k.key_name ++ take 2 k.key;
  key_of = λ bytes. record {
    key_type = get_or bytes 0 0;
    key_name = take 3 (drop 1 bytes);
    key = drop 4 bytes;
  };
}

abbrev one_key : Key
one_key = record { key_type = 1; key_name = b'k' ∷ 0 ∷ 0 ∷ []; key = 5 ∷ 6 ∷ [] }

abbrev config : Config
config = record {
  sentinel = b'S' ∷ b'2' ∷ [];
  disable_jtag = 0;
  use_fake_ims = 0;
  fake_ims = 0 ∷ 0 ∷ [];
  use_fake_ara_vidpid = 1;
  fake_ara_vid = 7;
  fake_ara_pid = 8;
  number_of_public_keys = 1;
  public_keys = one_key ∷ [];
}

config-IsConfig : IsConfig layout config
unfolding is_config_valid
config-IsConfig = record { valid = refl; counted = refl }

load-save_example :
    (file : List ℕ) × (save_s2config_to_file layout config ≡ some file)
    × (load_s2config_from_file layout true true true (one_key ∷ one_key ∷ []) (some file)
        ≡ some (some (record config { public_keys = one_key ∷ zero_key layout ∷ [] })))
load-save_example =
    load-save layout config config-IsConfig (record { size = refl; fields = refl })
      (record { size = refl; fields = refl }, tt) (one_key ∷ one_key ∷ []) (omega arith)
      (omega arith)

abbrev ims : List ℕ
ims = 9 ∷ 0 ∷ []
