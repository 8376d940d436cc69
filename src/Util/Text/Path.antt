-- ===== src/Util/Text/Path.antt =====
-- `change_extension`, which map files are named by.
use bootrom_tools.Base.{
  ℕ, ◌+◌, ◌-◌, ◌<◌, ◌≡◌, ◌≢◌, refl, true, List, [], ◌∷◌, ◌++◌, none, some, arith, length, All, inl,
  length-append, take-append_length, min, ◌∙◌,
}
use bootrom_tools.Util.Text.{c_string, before_last, change_extension}
use bootrom_tools.Util.Text.Copy.{NoZero, safer_strncpy_lem}

before_last-none : (c : ℕ) (rest : List ℕ) → All (λ x. x ≢ c) rest → before_last c rest ≡ none
unfolding before_last
before_last-none c [] h = refl
before_last-none c (x ∷ xs) h = ground (arith, before_last-none c xs h.1, h.0)

before_last-append :
    (c : ℕ) (root rest : List ℕ)
    → All (λ x. x ≢ c) rest
    → before_last c (root ++ c ∷ rest) ≡ some root
unfolding before_last
before_last-append c [] rest h = ground (arith, before_last-none c rest h)
before_last-append c (x ∷ root) rest h = ground (arith, before_last-append c root rest h)

-- Where the result fits the buffer, a file name with no dot gets a dot and the extension.
pub change_extension-no_dot :
    (pathbuf filename extension : List ℕ)
    → All (λ x. x ≢ b'.') filename
    → length filename + 1 + length extension < length pathbuf
    → change_extension pathbuf (length pathbuf) filename extension
      ≡ (true, filename ++ (b'.' ∷ extension))
unfolding change_extension
change_extension-no_dot pathbuf filename extension plain fits =
    ground (arith, before_last-none b'.' filename plain)

-- Where the result fits the buffer, the last dot of a file name and what follows it are replaced
-- by the extension alone, without a dot.
pub change_extension-dot :
    (pathbuf root rest extension : List ℕ)
    → NoZero (root ++ b'.' ∷ rest)
    → All (λ x. x ≢ b'.') rest
    → 0 < length root
    → length root + 1 + length extension < length pathbuf
    → change_extension pathbuf (length pathbuf) (root ++ b'.' ∷ rest) extension
      ≡ (true, root ++ extension)
unfolding change_extension
change_extension-dot pathbuf root rest extension text plain some_root fits =
    let filename : List ℕ = root ++ b'.' ∷ rest in
    let (out, copied, content, _) =
      safer_strncpy_lem pathbuf filename (length root) text (omega arith) some_root
        (inl (omega (arith, length-append root (b'.' ∷ rest)))) in
    let bound : min (length root) (length pathbuf - 1) ≡ length root = omega arith in
    let text_out : c_string out ≡ root =
      content ∙ rw bound (take-append_length root (b'.' ∷ rest)) in
    ground (arith, before_last-append b'.' root rest plain, copied, text_out)
