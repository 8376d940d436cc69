-- ===== src/CreateTftf/Output.antt =====
-- src/common/util.c and src/common/tftf_out.c: the functions that name and write the output file.
pub mod Directories
use bootrom_tools.Base.{
  ℕ, zero, suc, ◌+◌, ◌-◌, ◌/◌, ◌%◌, ◌^◌, Bool, true, false, not, List, [], ◌∷◌, ◌++◌, Option, none,
  some, ltb, ◌==◌, if◌then◌else◌, length, take,
}
use bootrom_tools.Util.Text.{c_string, strncpy}
use bootrom_tools.Tftf.{Format, Header, Blob}
use bootrom_tools.Tftf.Common.{tftf_payload_size}

-- The last byte, and what is before it.
abbrev pub split_last : ℕ → List ℕ → List ℕ × ℕ
split_last x [] = ([], x)
split_last x (y ∷ ys) = let (front, last) = split_last y ys in (x ∷ front, last)

abbrev pub strip_last : ℕ → List ℕ → List ℕ
strip_last x xs = let (front, last) = split_last x xs in if last == b'/' then front else x ∷ xs

abbrev pub strip_first : List ℕ → List ℕ
strip_first [] = []
strip_first (x ∷ xs) = if x == b'/' then xs else x ∷ xs

-- Success, and the string in the buffer; `none` is an access out of bounds.
unfoldable pub join : List ℕ → List ℕ → List ℕ → Option (Bool × List ℕ)
unfolding c_string strncpy
join outbuf [] filename = none
join outbuf (x ∷ xs) filename =
    let path = strip_last x xs in
    let name = strip_first filename in
    if ltb (length path + length name + 1) (length outbuf)
    then (let joined = c_string (strncpy outbuf path (length path)) ++ (b'/' ∷ name) in
        if ltb (length joined) (length outbuf) then some (true, joined) else none)
    else some (false, c_string outbuf)

abbrev pub hex_digit : ℕ → ℕ
hex_digit n = if ltb n 10 then b'0' + n else b'a' + (n - 10)

-- The last digits of a number, as many as asked for.
abbrev pub hex_digits : ℕ → ℕ → List ℕ
hex_digits zero n = []
hex_digits (suc k) n = hex_digits k (n / 16) ++ (hex_digit (n % 16) ∷ [])

-- The program's calls on the file system, and whether a path can be duplicated. A file takes the
-- first bytes of what is written, and `write` says how many.
pub record Disk : Type 0 where
  pub is_dir : List ℕ → Bool
  pub strdup : List ℕ → Bool
  pub dirname : List ℕ → List ℕ
  pub create : List ℕ → Bool
  pub write : List ℕ → List ℕ → ℕ

-- Whether it returns 0, and the calls of `mkdir`, whose results are not looked at, in their order;
-- `none` is the end of the fuel. A path that cannot be duplicated is the only failure.
unfoldable pub mkdir_recursive : ℕ → Disk → List ℕ → Option (Bool × List (List ℕ))
mkdir_recursive zero disk path = none
mkdir_recursive (suc fuel) disk path =
    let subpath = disk.dirname path in
    let above = mkdir_recursive fuel disk subpath in
    let upper : Option (Bool × List (List ℕ)) =
      if ltb 1 (length subpath) then above else some (true, []) in
    if disk.is_dir path
    then some (true, [])
    else if not (disk.strdup path)
    then some (false, [])
    else elim upper [
      | none ↦ none
      | some (success, made) ↦ some (success, if success then made ++ (path ∷ []) else made)
    ]

abbrev pub returns_zero : Option (Bool × List (List ℕ)) → Bool
returns_zero none = false
returns_zero (some (success, made)) = success

-- The directories above the output file. The fuel is above the length of the path.
unfoldable pub make_directories : Disk → List ℕ → Bool
make_directories disk output_filename =
    let path = disk.dirname output_filename in
    if not (disk.strdup output_filename)
    then false
    else if ltb 1 (length path)
    then returns_zero (mkdir_recursive (suc (length path)) disk path)
    else true

-- The bytes of an image: the header, and the payload up to the end of the sections.
abbrev pub image_bytes : (Header → List ℕ) → Format → Blob → List ℕ
image_bytes header_bytes fmt blob =
    header_bytes blob.header ++ take (tftf_payload_size fmt blob.header) blob.payload

-- Success, and the bytes that were written, if the file could be created.
unfoldable pub write_tftf_file :
    (Header → List ℕ) → Format → Disk → Blob → List ℕ → Bool × Option (List ℕ)
unfolding make_directories
write_tftf_file header_bytes fmt disk blob output_filename =
    let bytes = image_bytes header_bytes fmt blob in
    if not (make_directories disk output_filename)
    then (false, none)
    else if disk.create output_filename
    then (
      disk.write output_filename bytes == length bytes,
      some (take (disk.write output_filename bytes) bytes),
    )
    else (false, none)
