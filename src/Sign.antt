-- ===== src/Sign.antt =====
-- src/sign-tftf/sign.c: `sign_tftf`, over what OpenSSL and the file system return.
pub mod Sealed
pub mod Command
use bootrom_tools.Base.{
  ℕ, Bool, true, false, not, List, ◌++◌, Option, none, some, if◌then◌else◌, length, take, drop,
}
use bootrom_tools.Tftf.{Format, Header, Blob}
use bootrom_tools.Tftf.Common.{tftf_get_signable_region, tftf_add_section}

-- Whether each call on the digest succeeds, the digest of what it has been fed, and the signature
-- if `RSA_sign` succeeds.
pub record OpenSsl : Type 0 where
  pub md_ctx_create : Bool
  pub digest_init : Bool
  pub digest_update_hdr : Bool
  pub digest_update_scn : Bool
  pub digest_final : Bool
  pub sha256 : List ℕ → List ℕ
  pub rsa_sign : List ℕ → Option (List ℕ)

-- The signature's field behind `RSA_sign`; it is on the stack, and nothing has set it before.
unfoldable pub written : Option (List ℕ) → List ℕ → List ℕ
written none memory = memory
written (some signature) memory = signature ++ drop (length signature) memory

-- The calls up to the label `signing_err`: whether the flag is set, and the signature's field. A
-- failure leaves the flag as `tftf_get_signable_region` set it, and that of `RSA_sign` sets it.
unfoldable pub digest_and_sign : OpenSsl → Bool → List ℕ → List ℕ → List ℕ → Bool × List ℕ
digest_and_sign ssl success hdr_signable scn_signable memory =
    if not ssl.md_ctx_create
    then (success, memory)
    else if not ssl.digest_init
    then (success, memory)
    else if not ssl.digest_update_hdr
    then (success, memory)
    else if not ssl.digest_update_scn
    then (success, memory)
    else if not ssl.digest_final
    then (success, memory)
    else (true, written (ssl.rsa_sign (ssl.sha256 (hdr_signable ++ scn_signable))) memory)

-- A signature block has a type, the name of its key and the signature; the layouts of the block and
-- of the header belong to the boot ROM. `write` is whether the file can be written.
-- What is in memory of a file, and what `write_tftf_file` is called with, if it is called.
abbrev pub Result : Type 0
Result = Option Blob × Option Blob

module _ (fmt : Format) (header_bytes : Header → List ℕ)
    (block_bytes : ℕ → List ℕ → List ℕ → List ℕ) where
  -- The header and the payload that are signed; the pointers are not null.
  unfoldable pub signed_header : Blob → List ℕ
  signed_header blob =
      take (tftf_get_signable_region fmt blob.header).hdr_length (header_bytes blob.header)

  unfoldable pub signed_payload : Blob → List ℕ
  signed_payload blob = take (tftf_get_signable_region fmt blob.header).scn_length blob.payload

  abbrev pub finish : Bool → (Blob → Bool) → Option (Bool × Option Blob) → Option (Bool × Result)
  finish write_if_good write none = none
  finish write_if_good write (some (false, blob)) = some (false, (blob, none))
  finish write_if_good write (some (true, none)) = some (true, (none, none))
  finish write_if_good write (some (true, some blob)) = some (
    if write_if_good then write blob else true,
    (some blob, if write_if_good then some blob else none),
  )

  -- The flag, and what is then in memory and has been written; `none` is an access past the table of sections.
  unfoldable pub sign_tftf :
      ℕ
      → Bool
      → OpenSsl
      → Option Blob
      → ℕ
      → List ℕ
      → List ℕ
      → Bool
      → (Blob → Bool)
      → Option (Bool × Result)
  sign_tftf max malloc_succeeds ssl none algorithm key_name memory write_if_good write =
      some (false, (none, none))
  sign_tftf max malloc_succeeds ssl (some blob) algorithm key_name memory write_if_good write =
      let (success, signature) =
        digest_and_sign ssl true (signed_header blob) (signed_payload blob) memory in
      let block = block_bytes algorithm key_name signature in
      if success
      then finish write_if_good write (
          tftf_add_section fmt max malloc_succeeds (some blob) fmt.section_signature 0 0
            fmt.data_address_to_be_ignored (some block) (length block))
      else some (false, (some blob, none))
