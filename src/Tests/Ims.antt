-- ===== src/Tests/Ims.antt =====
-- Small libraries in place of MIRACL and SQLite, for runs of the IMS generator.
pub mod Search
pub mod Run
use bootrom_tools.Base.{
  ℕ, zero, suc, ◌+◌, ◌-◌, ◌*◌, ◌/◌, ◌%◌, ◌≤◌, ◌<◌, ◌≡◌, ◌∙◌, refl, ap, Bool, true, false, List, [],
  ◌∷◌, ◌++◌, Option, none, some, arith, ltb, leb, ◌==◌, if◌then◌else◌, length, get_or, get_elem?,
  replicate, take, same_bytes, same_bytes_iff, flat_bytes, All,
}
use bootrom_tools.Util.Hamming.{hamming_weight}
use bootrom_tools.Ims.{Crypto, IsIncrement}
use bootrom_tools.Ims.Text.{ims_write, ims_parse, parse_bytes, parse_bits, write_bytes, write_bits}
use bootrom_tools.Ims.Text.RoundTrip.{line_text, ims_parse-ims_write}
use bootrom_tools.Ims.Hash.{hash_it, sha256_concat, feed_words, feed_ones, epuid_from, calculate_y2}
use bootrom_tools.Ims.Keys.{
  swap_between, reverse_buf, copy_reversed, calc_epsk, calc_epvk, calc_essk, calc_esvk,
  calc_errk_pq_bias_odd, candidate_of, ff_from_little_endian_octet, public_modulus,
}
use bootrom_tools.Ims.Keys.Reverse.{reverse, reverse_buf-reverse, copy_reversed-reverse}
use bootrom_tools.Ims.Errk.{
  Errk, made, overflow, no_fuel, errk_max_pq, accepts, accepts_q, find_q, find_p, search_pq,
  calc_errk, bias_of, bias_bytes, recover_errk, odd_mod_of,
}
use bootrom_tools.Ims.Errk.Search.{search_pq-Ends}
use bootrom_tools.Ims.Errk.Second.{Ends}
use bootrom_tools.Ims.Errk.Agree.{calc_errk-recover_errk}
use bootrom_tools.Ims.Errk.Finds.{IsTaken, calc_errk-IsTaken}
use bootrom_tools.Ims.Database.{
  Row, Sqlite, Octet, db_get_blob, bound_row, db_add_keyset, db_get_keyset, db_ep_uid_exists,
}
use bootrom_tools.Ims.Database.Lookup.{IsStore, db_get_keyset-db_add_keyset}
use bootrom_tools.Ims.Generate.{
  Keys, State, draw_bytes, ims_generate_candidate, keeps_keys, unique_candidate, search_ims,
  store_ims, ims_generate, generate_all,
}
use bootrom_tools.Ims.Generate.Candidate.{IsCandidate}
use bootrom_tools.Ims.Generate.Keyset.{IsGenerated, search_ims-IsGenerated}
use bootrom_tools.Ims.Generate.Stored.{HasRoom, IsStored, ims_generate-IsStored}
use bootrom_tools.Ims.Input.{pos, File, get_ims}
use bootrom_tools.Ims.Input.Lines.{IsReadable, get_ims-line_text, get_ims_past_end}

-- The first byte tells two numbers apart; those from 63 steps above the start are prime.
abbrev pub toy : Crypto
toy = record {
  Rng = ℕ;
  FF = ℕ;
  sha256 = λ bytes. replicate 32 7;
  rand_byte = λ rng. (15, rng + 1);
  from_octet = λ octet. get_or octet 0 0 * 100000;
  to_octet = λ x. x % 256 ∷ x / 256 % 256 ∷ [];
  to_hex = λ octet. flat_bytes (λ b. b / 16 ∷ b % 16 ∷ []) octet;
  behind_hex = [];
  inc = λ x n. x + n;
  dec = λ x n. x - n;
  mul = λ x y. x * y;
  exceeds = λ x y. ltb y x;
  prime = λ x rng. (leb 700252 x, rng + 1);
  cfactor = λ x n. x % n == 0;
  public_448 = λ key. 4 ∷ [];
  valid_448 = λ key. true;
  public_25519 = λ key. 2 ∷ [];
  valid_25519 = λ key. true;
}

pub toy_law : IsIncrement toy
toy_law = record { inc_zero = λ x. omega arith; inc-inc = λ x m n. omega arith }

-- The rows, the latest first.
abbrev find_row : List Row → List ℕ → Option Row
find_row [] ep_uid = none
find_row (row ∷ rows) ep_uid =
    if same_bytes (elim row.ep_uid [ none ↦ [] | some hex ↦ hex ]) ep_uid
    then some row
    else find_row rows ep_uid

abbrev pub rows : Sqlite
rows = record {
  Db = List Row;
  prepare_insert = λ db. 0;
  bind = λ db i bytes. 0;
  step_insert = λ db row. (101, row ∷ db);
  finalize_insert = λ status. if status == 101 then 0 else 1;
  prepare_select = λ db ep_uid. 0;
  step_select = find_row;
  finalize_select = λ db ep_uid. 0;
}

pub rows_store : IsStore rows
rows_store = record {
  binds = λ db i bytes. refl;
  selects = λ db ep_uid. refl;
  closes = λ db ep_uid. refl;
  stored = λ status h. ground arith;
  finds = λ db row ep_uid h none_yet done.
      let same = (same_bytes_iff ep_uid ep_uid).1 refl in rw h (rw same refl);
}
