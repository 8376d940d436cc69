-- ===== src/Ims/Text.antt =====
-- src/imsgen/ims_common.c: `ims_parse`; src/imsgen/ims.c: `ims_write`. An IMS is written as one
-- line of binary digits, the last byte first.
pub mod RoundTrip
use bootrom_tools.Base.{
  ℕ, zero, suc, ◌*◌, ◌%◌, ◌^◌, Bool, true, false, not, List, [], ◌∷◌, ◌++◌, Option, none, some, ltb,
  ◌==◌, if◌then◌else◌, length, get_or, set, bit_and, bit_or,
}
use bootrom_tools.Ims.{ims_size}

-- What the inner loop ends with: a read past the text, a character that is no binary digit, or a
-- byte and the text behind its digits.
pub data Digits : Type 0 where
  fault : Digits
  garbage : Digits
  parsed : ℕ → List ℕ → Digits

abbrev pub digit_of : ℕ → Option ℕ
digit_of c = if c == b'1' then some 1 else if c == b'0' then some 0 else none

-- The inner loop for the bits that are left.
unfoldable pub parse_bits : ℕ → ℕ → List ℕ → Digits
parse_bits zero byte buf = parsed byte buf
parse_bits (suc bits) byte [] = fault
parse_bits (suc bits) byte (c ∷ buf) = elim (digit_of c) [
  | none ↦ garbage
  | some digit ↦ parse_bits bits (bit_or (byte * 2 % 2 ^ 8) digit) buf
]

-- The outer loop for the bytes that are left, down to index 0. A refusal leaves the bytes that
-- were stored before it.
unfoldable pub parse_bytes : ℕ → List ℕ → List ℕ → Option (Bool × List ℕ)
parse_bytes zero buf ims = some (true, ims)
parse_bytes (suc byte_index) buf ims = elim (parse_bits 8 0 buf) [
  | fault ↦ none
  | garbage ↦ some (false, ims)
  | parsed byte rest ↦ parse_bytes byte_index rest (set ims byte_index byte)
]

-- Success, and the new contents of `ims`; `none` is a read past the text.
unfoldable pub ims_parse : List ℕ → List ℕ → Option (Bool × List ℕ)
ims_parse binascii_buf ims = parse_bytes ims_size binascii_buf ims

-- A file that takes `capacity` characters in all.
abbrev pub fputc : ℕ → ℕ → List ℕ → Option (List ℕ)
fputc capacity c out = if ltb (length out) capacity then some (out ++ (c ∷ [])) else none

-- The character for the highest bit of a byte.
abbrev pub digit_char : ℕ → ℕ
digit_char byte = if bit_and byte 0x80 == 0 then b'0' else b'1'

unfoldable pub write_bits : ℕ → ℕ → ℕ → List ℕ → Bool × List ℕ
write_bits capacity zero byte out = (true, out)
write_bits capacity (suc bits) byte out = elim (fputc capacity (digit_char byte) out) [
  | none ↦ (false, out)
  | some out' ↦ write_bits capacity bits (byte * 2 % 2 ^ 8) out'
]

unfoldable pub write_bytes : ℕ → ℕ → List ℕ → List ℕ → Bool × List ℕ
write_bytes capacity zero ims out = (true, out)
write_bytes capacity (suc byte_index) ims out =
    let (ok, out') = write_bits capacity 8 (get_or ims byte_index 0) out in
    elim ok [ false ↦ (false, out') | true ↦ write_bytes capacity byte_index ims out' ]

-- Success, and the contents of the file. `opened` is whether the output file is open.
unfoldable pub ims_write : Bool → ℕ → List ℕ → List ℕ → Bool × List ℕ
ims_write opened capacity ims out =
    if opened
    then (let (ok, out') = write_bytes capacity ims_size ims out in
        elim ok [
          | false ↦ (false, out')
          | true ↦ elim (fputc capacity b'\n' out') [
            | none ↦ (false, out')
            | some line ↦ (true, line)
          ]
        ])
    else (false, out)
