-- ===== src/Tests/Tftf/Sign.antt =====
-- Signing with an OpenSSL whose digest fails.
use bootrom_tools.Base.{◌≡◌, refl, true, false, [], ◌∷◌, ◌++◌, some, none, arith, length}
use bootrom_tools.Tftf.{Blob, live}
use bootrom_tools.Tftf.Common.{tftf_payload_size, payload_from, described}
use bootrom_tools.Sign.{OpenSsl, digest_and_sign, sign_tftf}
use bootrom_tools.Sign.Sealed.{block_for, sign_tftf_appends}
use bootrom_tools.Tests.Tftf.{tftf, blob, image, image-IsTable}

abbrev failing : OpenSsl
failing = record {
  md_ctx_create = true;
  digest_init = false;
  digest_update_hdr = true;
  digest_update_scn = true;
  digest_final = true;
  sha256 = λ bytes. [];
  rsa_sign = λ digest. none;
}

short_block : length (block_for tftf (λ h. []) (λ a k s. a ∷ s) failing blob 1 [] (8 ∷ 9 ∷ [])) ≡ 3
unfolding digest_and_sign
short_block = refl

sign_example :
    (b : Blob) × (sign_tftf tftf
        (λ h. [])
        (λ a k s. a ∷ s)
        19
        true
        failing
        (some blob)
        1
        []
        (8 ∷ 9 ∷ [])
        true
        (λ b. true)
      ≡ some (true, (some b, some b)))
    × (live tftf b.header.sections
        ≡ live tftf image.sections
          ++ (described tftf 0x80 0 0 0xffffffff
                (length (block_for tftf (λ h. []) (λ a k s. a ∷ s) failing blob 1 [] (8 ∷ 9 ∷ [])))
              ∷ []))
    × (b.payload
        ≡ blob.payload ++ block_for tftf (λ h. []) (λ a k s. a ∷ s) failing blob 1 [] (8 ∷ 9 ∷ []))
sign_example =
    sign_tftf_appends tftf (λ h. []) (λ a k s. a ∷ s) 19 failing blob 1 [] (8 ∷ 9 ∷ []) true
      (λ b. true) image-IsTable (unfold live in omega arith) (omega arith)
      (omega (arith, short_block)) (unfold tftf_payload_size payload_from in refl)
