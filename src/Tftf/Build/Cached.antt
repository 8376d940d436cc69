-- ===== src/Tftf/Build/Cached.antt =====
-- `new_tftf` builds the cached sections.
use native.Mathlib.Nat.{zero-add, div-add-mod', div-eq_of_lt}
use native.Mathlib.Decide.{dec_le}
use bootrom_tools.Base.{
  ℕ, zero, suc, ◌+◌, ◌-◌, ◌*◌, ◌/◌, ◌%◌, false, ltb, ◌^◌, ◌≤◌, ◌<◌, ◌≡◌, refl, sym, true, List, [],
  ◌∷◌, ◌++◌, Option, some, length, replicate, arith, take, drop, All, flat_bytes, length-replicate,
  length-take, take-append-drop,
}
use bootrom_tools.Files.{System}
use bootrom_tools.Tftf.{Format, Section, Blob, live}
use bootrom_tools.Tftf.Cache.{Entry, Cache, init_iterator, sum_expanded, entries_size}
use bootrom_tools.Tftf.Build.{zero_section, zeroed, completed, built, fill, new_tftf_blob, new_tftf}
use bootrom_tools.Tftf.Build.Loaded.{
  IsLoadable, payload_of, descriptors, marked, loaded_table, fill-loads,
}

drop-replicate {ℓ} :
    {A : Type ℓ} (a : A) (k n : ℕ) → k < n → (rest : List A) × (drop k (replicate n a) ≡ a ∷ rest)
drop-replicate a k zero h = absurd (omega arith)
drop-replicate a zero (suc n) h = (replicate n a, refl)
drop-replicate a (suc k) (suc n) h = drop-replicate a k n (omega arith)

module _ (sys : System) (fmt : Format) where
  live-descriptors :
      (es : List (Entry sys)) (s : Section) (ss : List Section)
      → All (IsLoadable sys fmt) es
      → live fmt (descriptors sys fmt es ++ marked sys fmt (s ∷ ss)) ≡ descriptors sys fmt es
  unfolding descriptors live
  live-descriptors [] s ss l = ground arith
  live-descriptors (e ∷ es) s ss l = ground (arith, live-descriptors es s ss l.1, l.0.kind)

  loaded_table_lem :
      (es : List (Entry sys)) (slots : List Section)
      → loaded_table sys fmt es slots
        ≡ descriptors sys fmt es ++ marked sys fmt (drop (length es) slots)
  loaded_table_lem es slots = refl

  fill-cache :
      (header_size : ℕ) (es post : List (Entry sys)) (slots : List Section) (c : Cache sys)
      → c.entries ≡ es ++ post
      → 0 < length es
      → c.current_section ≡ length es
      → c.section_iterator ≡ 2 ^ 32 - 1
      → c.current_section < 2 ^ 32
      → All (IsLoadable sys fmt) es
      → length es < length slots
      → 0 < fmt.section_size
      → fmt.sections_offset + length slots * fmt.section_size ≤ header_size
      → fill sys fmt header_size 0 slots
          (record { cache = c; buffer = replicate (sum_expanded sys es) 0; position = 0 })
        ≡ built (loaded_table sys fmt es slots) (flat_bytes (payload_of sys fmt) es)
  fill-cache header_size [] post slots c entries some_section current iterator word l spare pos
        bound =
      absurd (omega arith)
  fill-cache header_size (e ∷ es) post slots c entries some_section current iterator word l spare
        pos bound =
      fill-loads sys fmt header_size 0 e es [] post slots c []
        (replicate (sum_expanded sys (e ∷ es)) 0) entries (omega arith) (omega arith) word l
        (length-replicate (sum_expanded sys (e ∷ es)) 0) spare pos
        (rw (zero-add (length slots)) bound)

  table_fits :
      (header_size : ℕ)
      → 0 < fmt.section_size
      → 0 < (header_size - fmt.sections_offset) / fmt.section_size
      → fmt.sections_offset
          + (header_size - fmt.sections_offset) / fmt.section_size * fmt.section_size
        ≤ header_size
  table_fits header_size pos some_slot =
      let whole = div-add-mod' (header_size - fmt.sections_offset) fmt.section_size in
      elim (dec_le fmt.sections_offset header_size) [
        | yes longer ↦ omega (arith, whole)
        | no shorter ↦
            let none_left : header_size - fmt.sections_offset ≡ 0 = omega arith in
            let no_slot : 0 < 0 / fmt.section_size = rw none_left at some_slot in
            absurd (omega (arith, div-eq_of_lt pos))
      ]

  new_tftf-built :
      (now : List ℕ) (header_size size : ℕ) (name : Option (List ℕ))
      (type start mid pid vid ara_pid : ℕ) (c : Cache sys) (table : List Section) (payload : List ℕ)
      → fill sys fmt header_size 0 (zeroed sys fmt header_size size).header.sections (record {
        cache = init_iterator sys c;
        buffer = (zeroed sys fmt header_size size).payload;
        position = 0;
      })
        ≡ built table payload
      → header_size + size < 2 ^ 32
      → new_tftf sys fmt true now header_size size name type start mid pid vid ara_pid c
        ≡ some (
            some (
              completed sys fmt now name type start mid pid vid ara_pid
                (zeroed sys fmt header_size size)
                table
                payload))
  unfolding new_tftf new_tftf_blob
  new_tftf-built now header_size size name type start mid pid vid ara_pid c table payload h below =
      let whole : (header_size + size) % 2 ^ 32 - header_size ≡ size = omega arith in
      let inside : ltb ((header_size + size) % 2 ^ 32) header_size ≡ false = ground arith in
      rw (whole, inside) (ground (arith, h))

  -- On a cache of sections whose bytes can all be had and which are not empty, where memory can be
  -- had and header and payload together are shorter than 2^32 bytes: `new_tftf`, given the total size of the cache and a header with slots for all of them and the end marker, builds
  -- a blob whose sections in use are the cached ones in order and whose payload is theirs.
  pub new_tftf-loads :
      (now : List ℕ) (header_size : ℕ) (name : Option (List ℕ)) (type start mid pid vid ara_pid : ℕ)
      (c : Cache sys)
      → 0 < c.current_section
      → c.current_section ≤ length c.entries
      → c.current_section < 2 ^ 32
      → All (IsLoadable sys fmt) (take c.current_section c.entries)
      → 0 < fmt.section_size
      → c.current_section < (header_size - fmt.sections_offset) / fmt.section_size
      → header_size + entries_size sys c < 2 ^ 32
      → (b : Blob) × (new_tftf sys fmt true now header_size
            (entries_size sys c)
            name
            type
            start
            mid
            pid
            vid
            ara_pid
            c
          ≡ some (some b))
        × (live fmt b.header.sections ≡ descriptors sys fmt (take c.current_section c.entries))
        × (b.payload ≡ flat_bytes (payload_of sys fmt) (take c.current_section c.entries))
        × (b.header.header_size ≡ header_size)
  unfolding entries_size init_iterator
  new_tftf-loads now header_size name type start mid pid vid ara_pid c some_section in_array word l
        pos spare below =
      let es : List (Entry sys) = take c.current_section c.entries in
      let count : length es ≡ c.current_section =
        omega (arith, length-take c.current_section c.entries) in
      let slots : ℕ = (header_size - fmt.sections_offset) / fmt.section_size in
      let filled =
        fill-cache header_size es (drop c.current_section c.entries) (replicate slots zero_section)
          (init_iterator sys c) (sym (take-append-drop c.current_section c.entries))
          (omega (arith, count)) (sym count) refl word l
          (omega (arith, count, length-replicate slots zero_section)) pos
          (rw (length-replicate slots zero_section) (table_fits header_size pos (omega arith))) in
      let (rest, last) = drop-replicate zero_section (length es) slots (omega (arith, count)) in
      (
        completed sys fmt now name type start mid pid vid ara_pid
            (zeroed sys fmt header_size (entries_size sys c))
            (loaded_table sys fmt es (replicate slots zero_section))
            (flat_bytes (payload_of sys fmt) es),
        new_tftf-built now header_size (entries_size sys c) name type start mid pid vid ara_pid c _
            _ filled below,
        rw (loaded_table_lem es (replicate slots zero_section), last)
            (live-descriptors es zero_section rest l),
        refl,
        refl,
      )
