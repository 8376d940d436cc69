-- ===== src/Ims/Hash.antt =====
-- src/imsgen/crypto.c: the SHA-256 context as the bytes it has been fed; src/imsgen/ims_common.c:
-- `sha256_concat`, the endpoint id and "Y2".
use bootrom_tools.Base.{ℕ, zero, suc, List, [], ◌∷◌, ◌++◌, bit_xor, map, take, replicate}
use bootrom_tools.Util.Hamming.{le32, bytes_of}
use bootrom_tools.Ims.{Crypto, ims_hamming_size, sha256_size}

module _ (crypto : Crypto) where
  -- `hash_start`, `hash_update` and `hash_final` on the one static context.
  abbrev pub hash_start : List ℕ
  hash_start = []

  abbrev pub hash_update : List ℕ → List ℕ → List ℕ
  hash_update context bytes = context ++ bytes

  abbrev pub hash_final : List ℕ → List ℕ
  hash_final context = crypto.sha256 context

  unfoldable pub hash_it : List ℕ → List ℕ
  hash_it bytes = hash_final (hash_update hash_start bytes)

  -- The hash, and `extend_count` copies of a byte behind it; both fit the scratch octet of 256
  -- bytes.
  unfoldable pub sha256_concat : List ℕ → ℕ → ℕ → List ℕ
  sha256_concat hash_y extend_byte extend_count =
      hash_it (take sha256_size hash_y ++ replicate extend_count extend_byte)

  -- The loop over the words of the IMS, each of which feeds its first `size` bytes in memory.
  unfoldable pub feed_words : ℕ → ℕ → List ℕ → List ℕ → List ℕ
  feed_words zero size bytes context = context
  feed_words (suc n) size (a ∷ b ∷ c ∷ d ∷ bytes) context =
      feed_words n size bytes
        (hash_update context (take size (bytes_of (bit_xor (le32 a b c d) 0x3d3d3d3d))))
  feed_words (suc n) size bytes context = context

  unfoldable pub feed_ones : ℕ → ℕ → List ℕ → List ℕ
  feed_ones zero size context = context
  feed_ones (suc n) size context =
      feed_ones n size (hash_update context (take size (bytes_of 0x01010101)))

  -- Both versions of the endpoint id: they feed one byte, or all four, of each word.
  unfoldable pub epuid_from : ℕ → List ℕ → List ℕ
  epuid_from size ims_value =
      let y1 = hash_final (feed_words 4 size ims_value hash_start) in
      let z0 = hash_final (feed_ones 8 size (hash_update hash_start (take sha256_size y1))) in
      take 8 (hash_it (take sha256_size z0))

  abbrev pub calculate_epuid_es3 : List ℕ → List ℕ
  calculate_epuid_es3 ims_value = epuid_from 1 ims_value

  abbrev pub calculate_epuid : List ℕ → List ℕ
  calculate_epuid ims_value = epuid_from 4 ims_value

  unfoldable pub calculate_y2 : List ℕ → List ℕ
  calculate_y2 ims_value = hash_it (map (λ b. bit_xor b 0x5a) (take ims_hamming_size ims_value))
