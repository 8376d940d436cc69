-- ===== src/Ims/Input.antt =====
-- src/imsgen/ims_io.c: `num_ims_in_file` and `get_ims`; src/imsgen/ims_common.c: `ims_read`. The
-- file system is a record of what the calls give.
pub mod Lines
use bootrom_tools.Base.{
  ℕ, zero, suc, ◌+◌, ◌*◌, ◌/◌, ◌^◌, Bool, true, false, ◌||◌, not, List, [], ◌∷◌, Option, none, some,
  ltb, ◌==◌, if◌then◌else◌, length, take, drop,
}
use bootrom_tools.Ims.Text.{ims_parse}

abbrev pub ims_binascii_size : ℕ
ims_binascii_size = 280

abbrev pub ims_line_size : ℕ
ims_line_size = 281

abbrev pub eio : ℕ
eio = 5

abbrev pub einval : ℕ
einval = 22

-- An `int`.
pub data ℤ : Type 0 where
  pos : ℕ → ℤ
  negsuc : ℕ → ℤ

-- A named file: whether `stat` finds it, what it holds, and the errors of the other calls. `errno` is
-- what it is before a call that does not set it.
pub record File : Type 0 where
  pub found : Bool
  pub content : List ℕ
  pub open_error : Option ℕ
  pub seek_error : Option ℕ
  pub read_error : Option ℕ
  pub errno : ℕ

-- -1, or the number of whole lines.
unfoldable pub num_ims_in_file : File → ℤ
num_ims_in_file file =
    if not file.found then negsuc 0 else pos (length file.content / ims_line_size)

-- The status and the IMS; `none` is a read past the bytes that were read.
unfoldable pub ims_status : Option (Bool × List ℕ) → Option (ℕ × List ℕ)
ims_status none = none
ims_status (some result) = some (if result.0 then 0 else eio, result.1)

-- An end of file is an error that sets no `errno`.
unfoldable pub ims_read : File → ℕ → List ℕ → Option (ℕ × List ℕ)
ims_read file offset ims = elim file.seek_error [
  | some errno ↦ some (errno, ims)
  | none ↦ elim file.read_error [
    | some errno ↦ some (errno, ims)
    | none ↦
        let buf = take ims_binascii_size (drop offset file.content) in
        if length buf == 0 then some (file.errno, ims) else ims_status (ims_parse buf ims)
  ]
]

-- The branch for a file that has IMS values. An index equal to their number is let through. `none`
-- is also the product of two `int` that overflows.
unfoldable pub get_indexed : File → ℤ → ℕ → List ℕ → Option (ℕ × List ℕ)
get_indexed file (negsuc n) num_available_ims ims = some (einval, ims)
get_indexed file (pos ims_index) num_available_ims ims =
    if ltb num_available_ims ims_index then some (einval, ims) else (elim file.open_error [
      | some errno ↦ if ltb (ims_index * ims_line_size) (2 ^ 31) then some (errno, ims) else none
      | none ↦
          if ltb (ims_index * ims_line_size) (2 ^ 31)
          then ims_read file (ims_index * ims_line_size) ims
          else none
    ])

-- A file that is missing or has no IMS is reported, and the status stays 0.
unfoldable pub get_ims : Option (List ℕ) → File → ℤ → List ℕ → Option (ℕ × List ℕ)
get_ims (some ims_binascii) file ims_index ims =
    if not (length ims_binascii == ims_binascii_size)
    then some (einval, ims)
    else ims_status (ims_parse ims_binascii ims)
get_ims none file ims_index ims = elim (num_ims_in_file file) [
  | negsuc n ↦ some (0, ims)
  | pos n ↦ if n == 0 then some (0, ims) else get_indexed file ims_index n ims
]
