-- ===== src/Tests/Ims/Run.antt =====
-- Runs of the generator, and of reading back what it wrote.
use bootrom_tools.Base.{
  ℕ, ◌≡◌, refl, Bool, true, false, List, [], ◌∷◌, ◌++◌, Option, none, some, arith, length,
  replicate, flat_bytes,
}
use bootrom_tools.Ims.Text.{ims_write, ims_parse}
use bootrom_tools.Ims.Text.RoundTrip.{line_text, ims_parse-ims_write}
use bootrom_tools.Ims.Database.{Octet, db_add_keyset, db_get_keyset, db_ep_uid_exists}
use bootrom_tools.Ims.Database.Lookup.{db_get_keyset-db_add_keyset}
use bootrom_tools.Ims.Generate.{State, ims_generate, generate_all}
use bootrom_tools.Ims.Input.{pos, File, get_ims}
use bootrom_tools.Ims.Input.Lines.{IsReadable, get_ims_past_end}
use bootrom_tools.Tests.Ims.{toy, rows, rows_store}

abbrev uid_test : List ℕ
uid_test = 1 ∷ 2 ∷ 3 ∷ 4 ∷ 5 ∷ 6 ∷ 7 ∷ 8 ∷ []

abbrev octet_test : Octet
octet_test = record { max = 4; val = [] }

keyset_unused : db_ep_uid_exists toy rows [] uid_test ≡ false
unfolding db_ep_uid_exists db_get_keyset
keyset_unused = refl

keyset_added : (db_add_keyset toy rows uid_test (5 ∷ []) (6 ∷ []) (7 ∷ []) []).0 ≡ 0
unfolding db_add_keyset
keyset_added = refl

keyset_example :
    db_get_keyset toy rows
      (db_add_keyset toy rows uid_test (5 ∷ []) (6 ∷ []) (7 ∷ []) []).1
      uid_test
      (some octet_test)
      (some octet_test)
      (some octet_test)
    ≡ (
      0,
      (
        some (record { max = 4; val = 5 ∷ [] }),
        (some (record { max = 4; val = 6 ∷ [] }), some (record { max = 4; val = 7 ∷ [] })),
      ),
    )
keyset_example =
    db_get_keyset-db_add_keyset toy rows rows_store [] uid_test (5 ∷ []) (6 ∷ []) (7 ∷ [])
      octet_test octet_test octet_test refl keyset_unused keyset_added (omega arith) (omega arith)
      (omega arith)

abbrev state_test : State toy rows
state_test = record { out = []; db = []; ims = replicate 35 0; rng = 0 }

abbrev state_of : Option (Bool × State toy rows) → State toy rows
state_of none = state_test
state_of (some result) = result.1

abbrev all_of : Option (ℕ × State toy rows) → State toy rows
all_of none = state_test
all_of (some result) = result.1

abbrev wide : Octet
wide = record { max = 300; val = [] }

abbrev generate_test : Option (Bool × State toy rows)
generate_test = ims_generate toy rows 2 2 false true 281 state_test

abbrev all_test : Option (ℕ × State toy rows)
all_test = generate_all toy rows 2 2 false true 281 1 state_test

-- The file that the run leaves.
abbrev file_of : List ℕ → File
file_of content = record {
  found = true;
  content = content;
  open_error = none;
  seek_error = none;
  read_error = none;
  errno = 0;
}

file-IsReadable : (content : List ℕ) → IsReadable (file_of content)
file-IsReadable content = record { found = refl; opens = refl; seeks = refl; reads = refl }

abbrev two_ims : List (List ℕ)
two_ims = replicate 35 15 ∷ replicate 35 16 ∷ []

past_end_example :
    get_ims none (file_of (flat_bytes line_text two_ims)) (pos 2) (replicate 35 1)
    ≡ some (0, replicate 35 1)
past_end_example =
    get_ims_past_end (file_of (flat_bytes line_text two_ims)) two_ims
      (file-IsReadable (flat_bytes line_text two_ims)) refl (replicate 35 1) (omega arith)
      (omega arith)

parse_example :
    (line : List ℕ) × (ims_write true 300 (replicate 35 77) [] ≡ (true, [] ++ line))
    × (length line ≡ 281)
    × (ims_parse line (replicate 35 0) ≡ some (true, replicate 35 77))
parse_example =
    ims_parse-ims_write 300 (replicate 35 77) (replicate 35 0) [] refl refl (ground arith)
      (omega arith)
