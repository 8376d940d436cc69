-- ===== src/Ims/Input/Lines.antt =====
-- Reading back the lines that were written.
use bootrom_tools.Base.{
  ℕ, zero, suc, ◌+◌, ◌*◌, ◌^◌, ◌≤◌, ◌<◌, ◌≡◌, ◌∙◌, refl, sym, ap, Bool, true, List, [], ◌∷◌, ◌++◌,
  Option, none, some, arith, length, get_elem?, take, drop, flat_bytes, All, length-append,
  drop-append_add, drop_none, take-append_length, append_assoc, append-nil, lt_of_get_elem?,
}
use bootrom_tools.Ims.{ims_size}
use bootrom_tools.Ims.Text.{ims_parse}
use bootrom_tools.Ims.Text.RoundTrip.{
  line_of, line_text, length-line_of, length-line_text, ims_parse-line_of,
}
use bootrom_tools.Ims.Input.{
  ℤ, pos, File, num_ims_in_file, ims_status, ims_read, get_indexed, get_ims,
}

abbrev pub IsIms : List ℕ → Type 0
IsIms ims = (length ims ≡ ims_size) × All (λ b. b < 256) ims

-- A file whose calls succeed.
pub record IsReadable (file : File) : Type 0 where
  pub found : file.found ≡ true
  pub opens : file.open_error ≡ none
  pub seeks : file.seek_error ≡ none
  pub reads : file.read_error ≡ none

length-lines : (values : List (List ℕ)) → length (flat_bytes line_text values) ≡ length values * 281
length-lines [] = refl
length-lines (v ∷ values) = omega (
  arith,
  length-append (line_text v) (flat_bytes line_text values),
  length-line_text v,
  length-lines values,
)

-- What stands at the place of a line.
line_at :
    (values : List (List ℕ)) (k : ℕ) (ims : List ℕ)
    → get_elem? values k ≡ some ims
    → (rest : List ℕ) × (drop (k * 281) (flat_bytes line_text values)
        ≡ line_of ims_size ims ++ rest)
line_at [] k ims h = cc
line_at (v ∷ values) zero ims h =
    let same : v ≡ ims = cc in
    (
      b'\n' ∷ flat_bytes line_text values,
      rw (sym same) (append_assoc (line_of ims_size v) (b'\n' ∷ []) (flat_bytes line_text values)),
    )
line_at (v ∷ values) (suc k) ims h =
    let (rest, at) = line_at values k ims h in
    let offset : suc k * 281 ≡ length (line_text v) + k * 281 = omega (arith, length-line_text v) in
    (rest, rw offset (drop-append_add (line_text v) (flat_bytes line_text values) (k * 281) ∙ at))

ims_status-true :
    (r : Option (Bool × List ℕ)) (ims : List ℕ)
    → r ≡ some (true, ims)
    → ims_status r ≡ some (0, ims)
unfolding ims_status
ims_status-true r ims h = rw h refl

module _ (file : File) (values : List (List ℕ)) (readable : IsReadable file)
    (lines : file.content ≡ flat_bytes line_text values) where
  num_ims_lem : num_ims_in_file file ≡ pos (length values)
  unfolding num_ims_in_file
  num_ims_lem = let count = length-lines values in rw (readable.found, lines) (ap pos (omega arith))

  get_ims-indexed :
      (index : ℤ) (old : List ℕ)
      → 0 < length values
      → get_ims none file index old ≡ get_indexed file index (length values) old
  unfolding get_ims
  get_ims-indexed index old h = ground (arith, num_ims_lem, h)

  get_indexed-reads :
      (k : ℕ) (old : List ℕ)
      → k ≤ length values
      → k * 281 < 2 ^ 31
      → get_indexed file (pos k) (length values) old ≡ ims_read file (k * 281) old
  unfolding get_indexed
  get_indexed-reads k old h small = ground (arith, readable.opens, h, small)

  ims_read-text :
      (k : ℕ) (old text rest : List ℕ)
      → length text ≡ 280
      → drop (k * 281) (flat_bytes line_text values) ≡ text ++ rest
      → ims_read file (k * 281) old ≡ ims_status (ims_parse text old)
  unfolding ims_read
  ims_read-text k old text rest size at =
      let taken : take 280 (text ++ rest) ≡ text = rw (sym size) (take-append_length text rest) in
      let buf : take 280 (drop (k * 281) file.content) ≡ text = rw (lines, at) taken in
      ground (arith, buf, size, readable.seeks, readable.reads)

  ims_read-end : (old : List ℕ) → ims_read file (length values * 281) old ≡ some (file.errno, old)
  unfolding ims_read
  ims_read-end old =
      let past =
        drop_none (flat_bytes line_text values) (length values * 281)
          (omega (arith, length-lines values)) in
      let buf : take 280 (drop (length values * 281) file.content) ≡ [] = rw (lines, past) refl in
      ground (arith, buf, readable.seeks, readable.reads)

  ims_parse-line :
      (ims old : List ℕ)
      → IsIms ims
      → length old ≡ ims_size
      → ims_parse (line_of ims_size ims) old ≡ some (true, ims)
  ims_parse-line ims old good size =
      rw (append-nil (line_of ims_size ims)) at (ims_parse-line_of ims old [] good.0 size good.1)

  -- In a readable file that holds the lines of IMS values and nothing else, `get_ims` gives for an
  -- index below their number, whose line starts within the first 2^31 bytes, the IMS of that line, whatever
  -- the buffer held before.
  pub get_ims-line_text :
      (k : ℕ) (ims old : List ℕ)
      → get_elem? values k ≡ some ims
      → IsIms ims
      → length old ≡ ims_size
      → k * 281 < 2 ^ 31
      → get_ims none file (pos k) old ≡ some (0, ims)
  get_ims-line_text k ims old h good size small =
      let below = lt_of_get_elem? values k h in
      let (rest, at) = line_at values k ims h in
      get_ims-indexed (pos k) old (omega arith)
      ∙ (get_indexed-reads k old (omega arith) small
          ∙ (ims_read-text k old (line_of ims_size ims) rest (length-line_of ims_size ims) at
              ∙ ims_status-true _ ims (ims_parse-line ims old good size)))

  -- In a readable file that holds the lines of IMS values, at least one, and nothing else, and that
  -- is shorter than 2^31 bytes: for the first index behind the lines, `get_ims` gives `errno` as it was before as the status, which is
  -- success if no call failed before, and leaves the buffer alone.
  pub get_ims_past_end :
      (old : List ℕ)
      → 0 < length values
      → length values * 281 < 2 ^ 31
      → get_ims none file (pos (length values)) old ≡ some (file.errno, old)
  get_ims_past_end old h small =
      get_ims-indexed (pos (length values)) old h
      ∙ (get_indexed-reads (length values) old (omega arith) small ∙ ims_read-end old)
