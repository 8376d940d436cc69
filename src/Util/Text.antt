-- ===== src/Util/Text.antt =====
-- src/common/util.c: the string helpers. A C string is the list of its bytes before the
-- terminator, a buffer the list of all its bytes, and a pointer that may be null an option.
pub mod Copy
pub mod Suffix
pub mod Path
use bootrom_tools.Base.{
  ℕ, zero, suc, ◌+◌, ◌-◌, ◌*◌, ◌/◌, ◌%◌, ◌^◌, Bool, true, false, ◌&&◌, ◌||◌, not, List, [], ◌∷◌,
  ◌++◌, Option, none, some, ltb, leb, ◌==◌, if◌then◌else◌, length, set, take, drop, replicate,
  same_bytes,
}

-- The string that a buffer holds: its bytes before the first zero.
unfoldable pub c_string : List ℕ → List ℕ
c_string [] = []
c_string (c ∷ cs) = if c == 0 then [] else c ∷ c_string cs

-- `strncpy` of `n` bytes to the start of a buffer: the string, then zeros.
unfoldable pub strncpy : List ℕ → List ℕ → ℕ → List ℕ
strncpy dest src n = take n (src ++ replicate n 0) ++ drop n dest

unfoldable pub endswith : Option (List ℕ) → Option (List ℕ) → Bool
endswith none suffix = false
endswith (some str) none = false
endswith (some str) (some suffix) =
    if ltb (length suffix) (length str)
    then same_bytes (drop (length str - length suffix) str) suffix
    else false

-- The string is cut where the suffix begins.
unfoldable pub rchop : List ℕ → Option (List ℕ) → List ℕ
rchop str none = str
rchop str (some suffix) =
    if ltb (length suffix) (length str)
    then if same_bytes (drop (length str - length suffix) str) suffix
      then take (length str - length suffix) str
      else str
    else str

-- The bytes to copy into `room` bytes, one of them for the terminator, and whether all fit.
abbrev pub trimmed : ℕ → ℕ → List ℕ → ℕ × Bool
trimmed count room src =
    if leb room count
    then if ltb (length src) room then (length src, true) else (room - 1, false)
    else (count, true)

-- The buffer is `destsz` bytes long.
unfoldable pub safer_strncpy : Option (List ℕ) → ℕ → Option (List ℕ) → ℕ → Bool × Option (List ℕ)
unfolding strncpy
safer_strncpy none destsz src count = (false, none)
safer_strncpy (some dest) destsz none count = (false, some dest)
safer_strncpy (some dest) destsz (some src) count =
    if ltb 0 destsz && ltb 0 count
    then (let (n, success) = trimmed count destsz src in
        (success, some (set (strncpy dest src destsz) n 0)))
    else (false, some dest)

unfoldable pub safer_strcpy : Option (List ℕ) → ℕ → Option (List ℕ) → Bool × Option (List ℕ)
unfolding safer_strncpy
safer_strcpy dest destsz none = (false, dest)
safer_strcpy dest destsz (some src) = safer_strncpy dest destsz (some src) (length src)

-- `strncpy` goes to the end of the string in the buffer, the terminator to index `count`.
unfoldable pub safer_strncat : Option (List ℕ) → ℕ → Option (List ℕ) → ℕ → Bool × Option (List ℕ)
unfolding strncpy c_string
safer_strncat none destsz src count = (false, none)
safer_strncat (some dest) destsz none count = (false, some dest)
safer_strncat (some dest) destsz (some src) count =
    if ltb 0 destsz && ltb 0 count
    then (let usedlen = length (c_string dest) in
        let (n, success) = trimmed count (destsz - usedlen) src in
        (success, some (set (take usedlen dest ++ strncpy (drop usedlen dest) src n) n 0)))
    else (false, some dest)

-- `strcat_s`, which util.h declares as `safer_strcat`.
unfoldable pub strcat_s : Option (List ℕ) → ℕ → Option (List ℕ) → Bool × Option (List ℕ)
unfolding safer_strncat
strcat_s dest destsz none = (false, dest)
strcat_s dest destsz (some src) = safer_strncat dest destsz (some src) (length src)

-- The bytes before the last dot, if there is one: `strrchr`.
unfoldable pub before_last : ℕ → List ℕ → Option (List ℕ)
before_last c [] = none
before_last c (x ∷ xs) = elim (before_last c xs) [
  | some root ↦ some (x ∷ root)
  | none ↦ if x == c then some [] else none
]

abbrev pub buffer_or_empty : Option (List ℕ) → List ℕ
buffer_or_empty none = []
buffer_or_empty (some buf) = buf

-- Success, and the string that the path buffer holds afterwards. `strcat` puts the extension
-- behind the string that is in the buffer by then.
unfoldable pub change_extension : List ℕ → ℕ → List ℕ → List ℕ → Bool × List ℕ
unfolding before_last c_string safer_strncpy
change_extension pathbuf pathbuf_length filename extension =
    if pathbuf_length == 0 then (false, c_string pathbuf) else elim (before_last b'.' filename) [
      | none ↦
          if leb pathbuf_length (length filename + 1 + length extension)
          then (false, c_string pathbuf)
          else (true, filename ++ (b'.' ∷ extension))
      | some root ↦
          if leb pathbuf_length (length root + 1 + length extension)
          then (false, c_string pathbuf)
          else (
            true,
            c_string (
                  buffer_or_empty
                    (safer_strncpy (some pathbuf) pathbuf_length (some filename) (length root)).1)
                ++ extension,
          )
    ]
