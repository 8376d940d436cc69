-- ===== src/Ims/Generate.antt =====
-- src/imsgen/ims.c: `ims_generate_candidate` and `ims_generate`; src/imsgen/ims_test_core.c:
-- `calculate_keys`. The three nested retry loops run on fuel.
pub mod Candidate
pub mod Keyset
pub mod Stored
pub mod Output
use bootrom_tools.Base.{
  ℕ, zero, suc, ◌+◌, Bool, true, false, ◌&&◌, not, List, [], Option, none, some, ◌==◌,
  if◌then◌else◌, set, take, take,
}
use bootrom_tools.Util.Hamming.{hamming_weight}
use bootrom_tools.Ims.{Crypto, ims_hamming_size}
use bootrom_tools.Ims.Text.{ims_write}
use bootrom_tools.Ims.Hash.{calculate_epuid_es3, calculate_y2}
use bootrom_tools.Ims.Keys.{calc_epsk, calc_epvk, calc_essk, calc_esvk}
use bootrom_tools.Ims.Errk.{made, overflow, no_fuel, calc_errk, recover_errk}
use bootrom_tools.Ims.Database.{Sqlite, db_add_keyset, db_ep_uid_exists}

-- The endpoint id and the public keys.
pub record Keys : Type 0 where
  pub ep_uid : List ℕ
  pub epvk : List ℕ
  pub esvk : List ℕ
  pub erpk_mod : List ℕ

module _ (crypto : Crypto) where
  -- What is left of the loop over the random bytes, from index `i`.
  unfoldable pub draw_bytes : ℕ → ℕ → List ℕ → crypto.Rng → List ℕ × crypto.Rng
  draw_bytes zero i ims rng = (ims, rng)
  draw_bytes (suc left) i ims rng =
      let (byte, rng') = crypto.rand_byte rng in draw_bytes left (i + 1) (set ims i byte) rng'

  unfoldable pub ims_generate_candidate : ℕ → List ℕ → crypto.Rng → Option (List ℕ × crypto.Rng)
  ims_generate_candidate zero ims rng = none
  ims_generate_candidate (suc fuel) ims rng =
      let (ims', rng') = draw_bytes ims_hamming_size 0 ims rng in
      elim (hamming_weight (take ims_hamming_size ims') == 128) [
        | true ↦ some (ims', rng')
        | false ↦ ims_generate_candidate fuel ims' rng'
      ]

  -- The keys that ims_test_core.c derives from an IMS.
  unfoldable pub calculate_keys : Bool → List ℕ → Keys
  calculate_keys sample ims =
      let y2 = calculate_y2 crypto ims in
      record {
        ep_uid = calculate_epuid_es3 crypto ims;
        epvk = (calc_epvk crypto (calc_epsk crypto y2)).1;
        esvk = (calc_esvk crypto (calc_essk crypto sample y2)).1;
        erpk_mod = recover_errk crypto sample y2 ims;
      }

  -- Whether the two public keys are kept: their status counts in production only.
  unfoldable pub keeps_keys : Bool → List ℕ → Bool
  keeps_keys sample y2 =
      let (epvk_ok, epvk) = calc_epvk crypto (calc_epsk crypto y2) in
      let (esvk_ok, esvk) = calc_esvk crypto (calc_essk crypto sample y2) in
      not (not sample && not (epvk_ok && esvk_ok))

  -- The working set that `ims_generate` leaves its loop with.
  abbrev pub generated_keys : Bool → List ℕ → List ℕ → List ℕ → Keys
  generated_keys sample ep_uid y2 erpk_mod = record {
    ep_uid = ep_uid;
    epvk = (calc_epvk crypto (calc_epsk crypto y2)).1;
    esvk = (calc_esvk crypto (calc_essk crypto sample y2)).1;
    erpk_mod = erpk_mod;
  }

  module _ (sqlite : Sqlite) where
    -- The loop for an endpoint id that the database does not hold.
    unfoldable pub unique_candidate :
        ℕ → ℕ → sqlite.Db → List ℕ → crypto.Rng → Option (List ℕ × crypto.Rng)
    unique_candidate draws zero db ims rng = none
    unique_candidate draws (suc fuel) db ims rng = elim (ims_generate_candidate draws ims rng) [
      | none ↦ none
      | some candidate ↦
          elim (db_ep_uid_exists crypto sqlite db (calculate_epuid_es3 crypto candidate.0)) [
            | false ↦ some candidate
            | true ↦ unique_candidate draws fuel db candidate.0 candidate.1
          ]
    ]

    -- The loop for an IMS from which all keys can be made; it leaves with the IMS, the keys and the
    -- random numbers.
    unfoldable pub search_ims :
        ℕ → ℕ → Bool → sqlite.Db → List ℕ → crypto.Rng → Option (List ℕ × (Keys × crypto.Rng))
    search_ims draws zero sample db ims rng = none
    search_ims draws (suc fuel) sample db ims rng = elim (unique_candidate draws draws db ims rng) [
      | none ↦ none
      | some candidate ↦
          let y2 = calculate_y2 crypto candidate.0 in
          elim (calc_errk crypto sample y2 candidate.0 candidate.1) [
            | no_fuel ↦ none
            | overflow rng' ↦ search_ims draws fuel sample db candidate.0 rng'
            | made ims' erpk_mod rng' ↦ elim (keeps_keys sample y2) [
              | false ↦ search_ims draws fuel sample db ims' rng'
              | true ↦ some (
                ims',
                (generated_keys sample (calculate_epuid_es3 crypto candidate.0) y2 erpk_mod, rng'),
              )
            ]
          ]
    ]

    -- What a call finds and leaves: the output file, the database, and the static buffer and random
    -- numbers.
    pub record State : Type 0 where
      pub out : List ℕ
      pub db : sqlite.Db
      pub ims : List ℕ
      pub rng : crypto.Rng

    -- The two writes at the end of `ims_generate`: the row is added only behind a line.
    unfoldable pub store_ims : Bool → ℕ → List ℕ → Keys → crypto.Rng → State → Bool × State
    store_ims opened capacity ims keys rng s =
        let (written, out) = ims_write opened capacity ims s.out in
        let (status, db) =
          db_add_keyset crypto sqlite keys.ep_uid keys.epvk keys.esvk keys.erpk_mod s.db in
        elim written [
          | false ↦ (false, record { out = out; db = s.db; ims = ims; rng = rng })
          | true ↦ (status == 0, record { out = out; db = db; ims = ims; rng = rng })
        ]

    -- Success, and the state behind the call; `none` is want of fuel.
    unfoldable pub ims_generate : ℕ → ℕ → Bool → Bool → ℕ → State → Option (Bool × State)
    ims_generate draws fuel sample opened capacity s =
        elim (search_ims draws fuel sample s.db s.ims s.rng) [
          | none ↦ none
          | some result ↦ some (store_ims opened capacity result.0 result.1.0 result.1.1 s)
        ]

    -- The loop of src/imsgen/imsgen.c: how many IMS were made, and the state.
    unfoldable pub generate_all : ℕ → ℕ → Bool → Bool → ℕ → ℕ → State → Option (ℕ × State)
    generate_all draws fuel sample opened capacity zero s = some (0, s)
    generate_all draws fuel sample opened capacity (suc num_ims) s =
        elim (ims_generate draws fuel sample opened capacity s) [
          | none ↦ none
          | some result ↦ elim result.0 [
            | false ↦ some (0, result.1)
            | true ↦ elim (generate_all draws fuel sample opened capacity num_ims result.1) [
              | none ↦ none
              | some rest ↦ some (suc rest.0, rest.1)
            ]
          ]
        ]
