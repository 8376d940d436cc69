-- ===== src/Sign/Sealed.antt =====
-- What a signed file holds.
use bootrom_tools.Base.{
  ℕ, ◌+◌, ◌^◌, ◌<◌, ◌≡◌, ◌≢◌, Bool, true, none, List, [], ◌∷◌, ◌++◌, some, arith, length,
  if◌then◌else◌, inl,
}
use bootrom_tools.Tftf.{Format, Header, Blob, live}
use bootrom_tools.Tftf.Common.{tftf_payload_size, tftf_add_section, described}
use bootrom_tools.Tftf.Common.AddSection.{IsTable, tftf_add_section_appends}
use bootrom_tools.Sign.{OpenSsl, digest_and_sign, signed_header, signed_payload, sign_tftf}

-- The flag is set whatever OpenSSL does.
always_set :
    (ssl : OpenSsl) (hdr scn memory : List ℕ) → (digest_and_sign ssl true hdr scn memory).0 ≡ true
unfolding digest_and_sign
always_set ssl hdr scn memory = ground arith

module _ (fmt : Format) (header_bytes : Header → List ℕ)
    (block_bytes : ℕ → List ℕ → List ℕ → List ℕ) where
  -- The block that is appended.
  abbrev pub block_for : OpenSsl → Blob → ℕ → List ℕ → List ℕ → List ℕ
  block_for ssl blob algorithm key_name memory =
      block_bytes algorithm key_name
        (digest_and_sign ssl true (signed_header fmt header_bytes block_bytes blob)
          (signed_payload fmt header_bytes block_bytes blob) memory).1

  sign_adds :
      (max : ℕ) (ssl : OpenSsl) (blob b : Blob) (algorithm : ℕ) (key_name memory : List ℕ)
      (write_if_good : Bool) (write : Blob → Bool)
      → (let block = block_for ssl blob algorithm key_name memory in
          tftf_add_section fmt max true
            (some blob)
            fmt.section_signature
            0
            0
            fmt.data_address_to_be_ignored
            (some block)
            (length block)
          ≡ some (true, some b))
      → sign_tftf fmt header_bytes block_bytes max true ssl
          (some blob)
          algorithm
          key_name
          memory
          write_if_good
          write
        ≡ some (
          if write_if_good then write b else true,
          (some b, if write_if_good then some b else none),
        )
  unfolding sign_tftf
  sign_adds max ssl blob b algorithm key_name memory write_if_good write h =
      let set =
        always_set ssl (signed_header fmt header_bytes block_bytes blob)
          (signed_payload fmt header_bytes block_bytes blob) memory in
      ground (arith, h, set)

  -- For a blob as long as its sections say, with room in its table of sections, a block of fewer
  -- than 2^32 bytes, and an allocation that succeeds: `sign_tftf` appends a signature section, with
  -- the block for whatever OpenSSL has left in it, to the sections in use and to the payload, and
  -- reports success unless the file cannot be written; it writes that blob if it is to write, and
  -- nothing otherwise. No failure of OpenSSL keeps it from that.
  pub sign_tftf_appends :
      (max : ℕ) (ssl : OpenSsl) (blob : Blob) (algorithm : ℕ) (key_name memory : List ℕ)
      (write_if_good : Bool) (write : Blob → Bool)
      → IsTable fmt max blob.header
      → length (live fmt blob.header.sections) + 2 < max
      → fmt.section_signature ≢ fmt.section_end
      → length (block_for ssl blob algorithm key_name memory) < 2 ^ 32
      → length blob.payload ≡ tftf_payload_size fmt blob.header
      → (b : Blob) × (sign_tftf fmt header_bytes block_bytes max true ssl
            (some blob)
            algorithm
            key_name
            memory
            write_if_good
            write
          ≡ some (
            if write_if_good then write b else true,
            (some b, if write_if_good then some b else none),
          ))
        × (live fmt b.header.sections
            ≡ live fmt blob.header.sections
              ++ (described fmt fmt.section_signature 0 0 fmt.data_address_to_be_ignored
                    (length (block_for ssl blob algorithm key_name memory))
                  ∷ []))
        × (b.payload ≡ blob.payload ++ block_for ssl blob algorithm key_name memory)
  sign_tftf_appends max ssl blob algorithm key_name memory write_if_good write t room kind word
        whole =
      let block = block_for ssl blob algorithm key_name memory in
      let (b, added, sections, payload, _, _) =
        tftf_add_section_appends fmt max blob fmt.section_signature 0 0
          fmt.data_address_to_be_ignored block t room kind (inl (omega arith)) word whole in
      (
        b,
        sign_adds max ssl blob b algorithm key_name memory write_if_good write added,
        sections,
        payload,
      )
