-- ===== src/Ims/Keys.antt =====
-- src/imsgen/ims_common.c: the signing and verification keys, and the numbers from which the RSA
-- key is searched. An octet is the list of its bytes up to its length.
pub mod Reverse
use bootrom_tools.Base.{
  ℕ, zero, suc, ◌+◌, ◌-◌, Bool, true, false, List, [], ◌∷◌, ◌++◌, Option, none, some, ltb,
  if◌then◌else◌, length, get_elem?, set, take, drop, bit_or,
}
use bootrom_tools.Ims.{Crypto, sha256_size}
use bootrom_tools.Ims.Hash.{sha256_concat}

abbrev pub epsk_size : ℕ
epsk_size = 56

abbrev pub errk_pq_size : ℕ
errk_pq_size = 128

-- `|=` on the first byte.
abbrev pub or_first : ℕ → List ℕ → List ℕ
or_first mask [] = []
or_first mask (b ∷ bytes) = bit_or b mask ∷ bytes

-- `reverse_buf`: the two pointers as indices, on fuel; `none` is an access past the buffer, or no
-- fuel.
unfoldable pub swap_between : ℕ → ℕ → ℕ → List ℕ → Option (List ℕ)
swap_between zero front rear buf = none
swap_between (suc fuel) front rear buf = elim (ltb front rear) [
  | false ↦ some buf
  | true ↦ elim (get_elem? buf front) [
    | none ↦ none
    | some temp ↦ elim (get_elem? buf rear) [
      | none ↦ none
      | some other ↦ swap_between fuel (front + 1) (rear - 1) (set (set buf front other) rear temp)
    ]
  ]
]

-- Of an empty buffer the rear pointer stands before the front one.
unfoldable pub reverse_buf : List ℕ → Option (List ℕ)
reverse_buf [] = some []
reverse_buf (b ∷ buf) = swap_between (suc (length buf)) 0 (length buf) (b ∷ buf)

-- The copy in `ff_from_little_endian_octet`: from the last byte down.
unfoldable pub copy_reversed : ℕ → List ℕ → List ℕ
copy_reversed zero val = []
copy_reversed (suc j) val = elim (get_elem? val j) [
  | none ↦ copy_reversed j val
  | some b ↦ b ∷ copy_reversed j val
]

module _ (crypto : Crypto) where
  unfoldable pub calc_epsk : List ℕ → List ℕ
  calc_epsk y2 =
      let z1 = sha256_concat crypto y2 0x01 32 in
      take sha256_size (sha256_concat crypto z1 0x01 32)
      ++ take (epsk_size - sha256_size) (sha256_concat crypto z1 0x02 32)

  -- The status is true for 0.
  unfoldable pub calc_epvk : List ℕ → Bool × List ℕ
  calc_epvk epsk = let epvk = crypto.public_448 epsk in (crypto.valid_448 epvk, epvk)

  unfoldable pub calc_essk : Bool → List ℕ → List ℕ
  calc_essk ims_sample_compatibility y2 =
      if ims_sample_compatibility
      then sha256_concat crypto y2 0x01 32
      else (let z2 = sha256_concat crypto y2 0x02 32 in
          take sha256_size (sha256_concat crypto z2 0x01 32))

  unfoldable pub calc_esvk : List ℕ → Bool × List ℕ
  calc_esvk essk = let esvk = crypto.public_25519 essk in (crypto.valid_25519 esvk, esvk)

  -- The 128 bytes of an octet's buffer: four hashes in a row, the first byte made odd.
  abbrev pub odd_candidate : List ℕ → ℕ → List ℕ
  odd_candidate z3 first = or_first 0x03 (
      take sha256_size (sha256_concat crypto z3 first 32)
      ++ (take sha256_size (sha256_concat crypto z3 (first + 1) 32)
          ++ (take sha256_size (sha256_concat crypto z3 (first + 2) 32)
              ++ take sha256_size (sha256_concat crypto z3 (first + 3) 32))))

  -- The buffers of P and Q. The mask is 3 in both modes: `ODD_3_MOD_4_BITMASK`, and 4 less 1. The
  -- mode changes nothing else but the length of the octets, `pq_len_of`.
  unfoldable pub calc_errk_pq_bias_odd : List ℕ → List ℕ × List ℕ
  calc_errk_pq_bias_odd y2 =
      let z3 = sha256_concat crypto y2 0x03 32 in (odd_candidate z3 0x01, odd_candidate z3 0x05)

  abbrev pub pq_len_of : Bool → ℕ
  pq_len_of ims_sample_compatibility =
      if ims_sample_compatibility then sha256_size else errk_pq_size

  -- MIRACL reads the buffer of the octet, 128 bytes, whatever its length is.
  abbrev pub ff_from_big_endian_octet : List ℕ → crypto.FF
  ff_from_big_endian_octet octet = crypto.from_octet octet

  -- The copy goes by the length of the octet.
  unfoldable pub ff_from_little_endian_octet : ℕ → List ℕ → crypto.FF
  ff_from_little_endian_octet len octet = crypto.from_octet (copy_reversed len octet)

  -- The two numbers, read from their octets in the order that the mode asks for.
  abbrev pub candidate_of : Bool → List ℕ → crypto.FF
  candidate_of ims_sample_compatibility octet =
      if ims_sample_compatibility
      then ff_from_big_endian_octet octet
      else ff_from_little_endian_octet (pq_len_of ims_sample_compatibility) octet

  -- What `rsa_secret` gives that is kept: the modulus.
  unfoldable pub public_modulus : crypto.FF → crypto.FF → List ℕ
  public_modulus p q = crypto.to_octet (crypto.mul p q)
