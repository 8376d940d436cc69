-- ===== src/Ims/Text/RoundTrip.antt =====
-- What `ims_write` writes, `ims_parse` reads.
use bootrom_tools.Base.{
  ℕ, zero, suc, ◌+◌, ◌*◌, ◌%◌, ◌^◌, ◌≤◌, ◌<◌, ◌≡◌, ◌∙◌, refl, sym, ap, Bool, true, false, List, [],
  ◌∷◌, ◌++◌, some, arith, ◌==◌, length, get_or, set, take, drop, All, bit_or, length-append,
  append_assoc, drop-set_self, drop_none, take-suc, take_all, append-nil, length-set,
}
use bootrom_tools.Ims.{ims_size}
use bootrom_tools.Ims.Text.{
  Digits, fault, garbage, parsed, fputc, digit_char, parse_bits, parse_bytes, ims_parse, write_bits,
  write_bytes, ims_write,
}
use bootrom_tools.Util.Hamming.Weight.{all_below, all_below_lem}

-- The digits of a byte, the highest first.
unfoldable pub digits : ℕ → ℕ → List ℕ
digits zero byte = []
digits (suc bits) byte = digit_char byte ∷ digits bits (byte * 2 % 2 ^ 8)

-- The line for the bytes below an index.
unfoldable pub line_of : ℕ → List ℕ → List ℕ
line_of zero ims = []
line_of (suc byte_index) ims = digits 8 (get_or ims byte_index 0) ++ line_of byte_index ims

length-digits : (bits byte : ℕ) → length (digits bits byte) ≡ bits
unfolding digits
length-digits zero byte = refl
length-digits (suc bits) byte = ap suc (length-digits bits (byte * 2 % 2 ^ 8))

pub length-line_of : (n : ℕ) (ims : List ℕ) → length (line_of n ims) ≡ 8 * n
unfolding line_of
length-line_of zero ims = refl
length-line_of (suc n) ims = omega (
  arith,
  length-append (digits 8 (get_or ims n 0)) (line_of n ims),
  length-digits 8 (get_or ims n 0),
  length-line_of n ims,
)

write_bits-digits :
    (capacity bits byte : ℕ) (out : List ℕ)
    → length out + bits ≤ capacity
    → write_bits capacity bits byte out ≡ (true, out ++ digits bits byte)
unfolding write_bits digits
write_bits-digits capacity zero byte out room =
    ap (λ (x : List ℕ). (true, x)) (sym (append-nil out))
write_bits-digits capacity (suc bits) byte out room =
    let next : List ℕ = out ++ (digit_char byte ∷ []) in
    let grown : length next ≡ length out + 1 = length-append out (digit_char byte ∷ []) in
    let later = write_bits-digits capacity bits (byte * 2 % 2 ^ 8) next (omega (arith, grown)) in
    let put : fputc capacity (digit_char byte) out ≡ some next = ground arith in
    let joined : next ++ digits bits (byte * 2 % 2 ^ 8) ≡ out ++ digits (suc bits) byte =
      append_assoc out (digit_char byte ∷ []) (digits bits (byte * 2 % 2 ^ 8)) in
    step put ∙ later ∙ ap (λ (x : List ℕ). (true, x)) joined
  where
    step :
        {next : List ℕ}
        → fputc capacity (digit_char byte) out ≡ some next
        → write_bits capacity (suc bits) byte out ≡ write_bits capacity bits (byte * 2 % 2 ^ 8) next
    step put = ground (arith, put)

write_bytes-line_of :
    (capacity n : ℕ) (ims out : List ℕ)
    → length out + 8 * n ≤ capacity
    → write_bytes capacity n ims out ≡ (true, out ++ line_of n ims)
unfolding write_bytes line_of
write_bytes-line_of capacity zero ims out room =
    ap (λ (x : List ℕ). (true, x)) (sym (append-nil out))
write_bytes-line_of capacity (suc n) ims out room =
    let byte : ℕ = get_or ims n 0 in
    let next : List ℕ = out ++ digits 8 byte in
    let grown : length next ≡ length out + 8 =
      length-append out (digits 8 byte) ∙ ap (◌+◌ (length out)) (length-digits 8 byte) in
    let first = write_bits-digits capacity 8 byte out (omega arith) in
    let later = write_bytes-line_of capacity n ims next (omega (arith, grown)) in
    step first
    ∙ later
    ∙ ap (λ (x : List ℕ). (true, x)) (append_assoc out (digits 8 byte) (line_of n ims))
  where
    step :
        {next : List ℕ}
        → write_bits capacity 8 (get_or ims n 0) out ≡ (true, next)
        → write_bytes capacity (suc n) ims out ≡ write_bytes capacity n ims next
    step h = ground (arith, h)

-- Reading goes on behind what it has read.
parse_bits-append :
    (bits byte v : ℕ) (xs rest : List ℕ)
    → parse_bits bits byte xs ≡ parsed v []
    → parse_bits bits byte (xs ++ rest) ≡ parsed v rest
unfolding parse_bits
parse_bits-append zero byte v [] rest h = ground arith
parse_bits-append zero byte v (x ∷ xs) rest h = ground arith
parse_bits-append (suc bits) byte v [] rest h = ground arith
parse_bits-append (suc bits) byte v (x ∷ xs) rest h = ground (
  arith,
  parse_bits-append bits (bit_or (byte * 2 % 2 ^ 8) 1) v xs rest,
  parse_bits-append bits (bit_or (byte * 2 % 2 ^ 8) 0) v xs rest,
)

-- Each of the 256 bytes is read back.
abbrev reads : Digits → ℕ → Bool
reads (parsed v []) byte = v == byte
reads _ byte = false

reads_lem : (d : Digits) (byte : ℕ) → reads d byte ≡ true → d ≡ parsed byte []
reads_lem (parsed v []) byte h = ground arith
reads_lem (parsed v (x ∷ xs)) byte h = ground arith
reads_lem fault byte h = ground arith
reads_lem garbage byte h = ground arith

byte_table : all_below 256 (λ b. reads (parse_bits 8 0 (digits 8 b)) b) ≡ true
unfolding all_below parse_bits digits
byte_table = refl

parse_bits-digits :
    (byte : ℕ) (rest : List ℕ)
    → byte < 256
    → parse_bits 8 0 (digits 8 byte ++ rest) ≡ parsed byte rest
parse_bits-digits byte rest h = parse_bits-append 8 0 byte (digits 8 byte) rest (
    reads_lem (parse_bits 8 0 (digits 8 byte)) byte
      (all_below_lem 256 (λ b. reads (parse_bits 8 0 (digits 8 b)) b) byte byte_table h))

get_or-byte : (xs : List ℕ) (n : ℕ) → All (λ b. b < 256) xs → get_or xs n 0 < 256
get_or-byte [] n h = omega arith
get_or-byte (x ∷ xs) zero h = h.0
get_or-byte (x ∷ xs) (suc n) h = get_or-byte xs n h.1

parse_bytes-line_of :
    (n : ℕ) (ims old rest : List ℕ)
    → All (λ b. b < 256) ims
    → n ≤ length ims
    → n ≤ length old
    → parse_bytes n (line_of n ims ++ rest) old ≡ some (true, take n ims ++ drop n old)
unfolding parse_bytes line_of
parse_bytes-line_of zero ims old rest bytes long room = refl
parse_bytes-line_of (suc n) ims old rest bytes long room =
    let byte : ℕ = get_or ims n 0 in
    let read : parse_bits 8 0 ((digits 8 byte ++ line_of n ims) ++ rest)
        ≡ parsed byte (line_of n ims ++ rest) =
      rw (append_assoc (digits 8 byte) (line_of n ims) rest)
        (parse_bits-digits byte (line_of n ims ++ rest) (get_or-byte ims n bytes)) in
    let later =
      parse_bytes-line_of n ims (set old n byte) rest bytes (omega arith)
        (omega (arith, length-set old n byte)) in
    let joined : take n ims ++ drop n (set old n byte) ≡ take (suc n) ims ++ drop (suc n) old =
      rw (drop-set_self old n byte (omega arith), take-suc ims n 0 (omega arith))
        (sym (append_assoc (take n ims) (byte ∷ []) (drop (suc n) old))) in
    step read ∙ later ∙ ap (λ (x : List ℕ). some (true, x)) joined
  where
    step :
        {byte : ℕ} {more : List ℕ}
        → parse_bits 8 0 ((digits 8 (get_or ims n 0) ++ line_of n ims) ++ rest) ≡ parsed byte more
        → parse_bytes (suc n) (line_of (suc n) ims ++ rest) old
          ≡ parse_bytes n more (set old n byte)
    step h = ground (arith, h)

-- The whole line.
abbrev pub line_text : List ℕ → List ℕ
line_text ims = line_of ims_size ims ++ (b'\n' ∷ [])

pub length-line_text : (ims : List ℕ) → length (line_text ims) ≡ 281
length-line_text ims =
    let count : length (line_of ims_size ims) ≡ 280 = length-line_of ims_size ims in
    omega (arith, length-append (line_of ims_size ims) (b'\n' ∷ []))

pub ims_write-line_text :
    (capacity : ℕ) (ims out : List ℕ)
    → length out + 281 ≤ capacity
    → ims_write true capacity ims out ≡ (true, out ++ line_text ims)
unfolding ims_write
ims_write-line_text capacity ims out space =
    let text : List ℕ = line_of ims_size ims in
    let count : length text ≡ 280 = length-line_of ims_size ims in
    let written = write_bytes-line_of capacity ims_size ims out (omega arith) in
    ground (arith, written, length-append out text, append_assoc out text (b'\n' ∷ []))

-- The digits are read back, whatever follows them.
pub ims_parse-line_of :
    (ims old rest : List ℕ)
    → length ims ≡ ims_size
    → length old ≡ ims_size
    → All (λ b. b < 256) ims
    → ims_parse (line_of ims_size ims ++ rest) old ≡ some (true, ims)
unfolding ims_parse
ims_parse-line_of ims old rest size room bytes =
    let read = parse_bytes-line_of ims_size ims old rest bytes (omega arith) (omega arith) in
    let all : take ims_size ims ++ drop ims_size old ≡ ims =
      rw (take_all ims ims_size (omega arith), drop_none old ims_size (omega arith))
        (append-nil ims) in
    read ∙ ap (λ (x : List ℕ). some (true, x)) all

-- Where the file has room for a line of 281 characters, `ims_write` writes one behind what the file
-- holds, and `ims_parse` reads the same 35 bytes back from it, whatever `ims` held before.
pub ims_parse-ims_write :
    (capacity : ℕ) (ims old out : List ℕ)
    → length ims ≡ ims_size
    → length old ≡ ims_size
    → All (λ b. b < 256) ims
    → length out + 281 ≤ capacity
    → (line : List ℕ) × (ims_write true capacity ims out ≡ (true, out ++ line))
      × (length line ≡ 281)
      × (ims_parse line old ≡ some (true, ims))
ims_parse-ims_write capacity ims old out size room bytes space = (
  line_text ims,
  ims_write-line_text capacity ims out space,
  length-line_text ims,
  ims_parse-line_of ims old (b'\n' ∷ []) size room bytes,
)
