-- ===== src/Tftf/Build/Loaded.antt =====
-- The loop of `new_tftf` over the cache.
use bootrom_tools.Base.{
  leb, ℕ, suc, ◌+◌, ◌-◌, ◌*◌, ◌%◌, ◌^◌, ◌≤◌, ◌<◌, ◌≡◌, ◌≢◌, ◌∙◌, refl, sym, ap, true, List, [], ◌∷◌,
  ◌++◌, none, some, length, arith, get_elem?, drop, All, flat_bytes, length-append,
  take-append_length, append_assoc, length-drop, append-nil, drop-append_add,
}
use bootrom_tools.Files.{System, store}
use bootrom_tools.Tftf.{Format, Section}
use bootrom_tools.Tftf.Cache.{
  Entry, Cache, stored, Walk, get_next_entry, contents, advanced, entry_at_iterator, sum_expanded,
}
use bootrom_tools.Tftf.Build.{built, within, finish, fill}

get_elem?-middle {ℓ} :
    {A : Type ℓ} (pre : List A) (a : A) (post : List A)
    → get_elem? (pre ++ a ∷ post) (length pre) ≡ some a
get_elem?-middle [] a post = refl
get_elem?-middle (x ∷ pre) a post = get_elem?-middle pre a post

empty_of_length : (xs : List ℕ) → length xs ≡ 0 → xs ≡ []
empty_of_length [] h = refl
empty_of_length (x ∷ xs) h = absurd (omega arith)

-- A store at the end of what is done goes in front of the rest.
store-append :
    (done room bytes : List ℕ)
    → length bytes ≤ length room
    → store (done ++ room) (length done) bytes ≡ some ((done ++ bytes) ++ drop (length bytes) room)
unfolding store
store-append done room [] h = rw append-nil refl
store-append done room (b ∷ bs) h =
    rw (if_le, take-append_length done room, drop-append_add done room (suc (length bs)))
      (ap some (sym (append_assoc done (b ∷ bs) (drop (suc (length bs)) room))))
  where
    if_le : leb (length done + length (b ∷ bs)) (length (done ++ room)) ≡ true
    if_le = ground (arith, length-append done room)

module _ (sys : System) (fmt : Format) where
  -- The bytes that an entry brings, from its cached blob or from its file.
  abbrev pub payload_of : Entry sys → List ℕ
  payload_of e = elim (contents sys e) [ none ↦ [] | some (bytes, _) ↦ bytes ]

  -- The entry's bytes can be had, and are as many as its section says, and some.
  pub record IsLoadable (e : Entry sys) : Type 0 where
    pub complete : contents sys e ≡ some (payload_of e, true)
    pub size : length (payload_of e) ≡ e.section.section_expanded_length
    pub nonempty : 0 < e.section.section_expanded_length
    pub kind : e.section.section_type ≢ fmt.section_end

  unfoldable pub descriptors : List (Entry sys) → List Section
  descriptors [] = []
  descriptors (e ∷ es) = e.section ∷ descriptors es

  abbrev pub marked : List Section → List Section
  marked [] = []
  marked (s ∷ ss) = record s { section_type = fmt.section_end } ∷ ss

  get_next_entry-loads :
      (c : Cache sys) (e : Entry sys) (pre post : List (Entry sys)) (done room bytes : List ℕ)
      → c.entries ≡ pre ++ e ∷ post
      → length pre < c.current_section
      → c.section_iterator ≡ (length pre + 2 ^ 32 - 1) % 2 ^ 32
      → length pre < 2 ^ 32
      → contents sys e ≡ some (bytes, true)
      → length bytes ≡ e.section.section_expanded_length
      → e.section.section_expanded_length ≤ length room
      → get_next_entry sys (record { cache = c; buffer = done ++ room; position = length done })
        ≡ some (
          stored,
          some e.section,
          record {
            cache = advanced sys c;
            buffer = (done ++ bytes) ++ drop (length bytes) room;
            position = length (done ++ bytes);
          },
        )
  unfolding get_next_entry entry_at_iterator
  get_next_entry-loads c e pre post done room bytes entries inside iterator word complete size
        fits =
      let at : (c.section_iterator + 1) % 2 ^ 32 ≡ length pre = omega arith in
      let found : get_elem? c.entries (length pre) ≡ some e =
        rw entries (get_elem?-middle pre e post) in
      let bound : length (done ++ room) ≡ length done + length room = length-append done room in
      let moved : length (done ++ bytes) ≡ length done + e.section.section_expanded_length =
        length-append done (bytes) ∙ ap (◌+◌ (length done)) size in
      let put = store-append done room (bytes) (omega (arith, size)) in
      ground (arith, at, found, bound, moved, put)

  abbrev pub loaded_table : List (Entry sys) → List Section → List Section
  loaded_table es slots = descriptors es ++ marked (drop (length es) slots)

  fill-last :
      (header_size index : ℕ) (slot s : Section) (slots : List Section) (w w' : Walk sys)
      → get_next_entry sys w ≡ some (stored, some s, w')
      → length w'.buffer ≤ w'.position
      → fill sys fmt header_size index (slot ∷ slots) w ≡ within s (finish sys fmt slots w'.buffer)
  unfolding fill
  fill-last header_size index slot s slots w w' step full = ground (arith, step)

  fill-more :
      (header_size index : ℕ) (slot s : Section) (slots : List Section) (w w' : Walk sys)
      → get_next_entry sys w ≡ some (stored, some s, w')
      → w'.position < length w'.buffer
      → fmt.sections_offset + suc index * fmt.section_size < header_size
      → fill sys fmt header_size index (slot ∷ slots) w
        ≡ within s (fill sys fmt header_size (suc index) slots w')
  unfolding fill
  fill-more header_size index slot s slots w w' step some_room in_header = ground (arith, step)

  -- The size of what is left, behind the bytes of one entry.
  rest_size :
      (e : Entry sys) (es : List (Entry sys)) (room : List ℕ)
      → IsLoadable e
      → length room ≡ sum_expanded sys (e ∷ es)
      → length (drop (length (payload_of e)) room) ≡ sum_expanded sys es
  unfolding sum_expanded
  rest_size e es room l size = omega (arith, length-drop (length (payload_of e)) room, l.size)

  none_left :
      (e : Entry sys) (room : List ℕ)
      → IsLoadable e
      → length room ≡ sum_expanded sys (e ∷ [])
      → drop (length (payload_of e)) room ≡ []
  unfolding sum_expanded
  none_left e room l size =
      empty_of_length (drop (length (payload_of e)) room)
        (omega (arith, length-drop (length (payload_of e)) room, l.size))

  some_left :
      (e e2 : Entry sys) (es : List (Entry sys)) (room : List ℕ)
      → IsLoadable e
      → IsLoadable e2
      → length room ≡ sum_expanded sys (e ∷ e2 ∷ es)
      → 0 < length (drop (length (payload_of e)) room)
  unfolding sum_expanded
  some_left e e2 es room l l2 size =
      omega (arith, length-drop (length (payload_of e)) room, l.size, l2.nonempty)

  first_fits :
      (e : Entry sys) (es : List (Entry sys)) (room : List ℕ)
      → length room ≡ sum_expanded sys (e ∷ es)
      → e.section.section_expanded_length ≤ length room
  unfolding sum_expanded
  first_fits e es room size = omega arith

  pub fill-loads :
      (header_size index : ℕ) (e : Entry sys) (es pre post : List (Entry sys))
      (slots : List Section) (c : Cache sys) (done room : List ℕ)
      → c.entries ≡ pre ++ (e ∷ es ++ post)
      → c.current_section ≡ length pre + suc (length es)
      → c.section_iterator ≡ (length pre + 2 ^ 32 - 1) % 2 ^ 32
      → c.current_section < 2 ^ 32
      → All IsLoadable (e ∷ es)
      → length room ≡ sum_expanded sys (e ∷ es)
      → suc (length es) < length slots
      → 0 < fmt.section_size
      → fmt.sections_offset + (index + length slots) * fmt.section_size ≤ header_size
      → fill sys fmt header_size index slots
          (record { cache = c; buffer = done ++ room; position = length done })
        ≡ built (loaded_table (e ∷ es) slots) (done ++ flat_bytes payload_of (e ∷ es))
  unfolding descriptors
  fill-loads header_size index e es pre post [] c done room entries current iterator word l size
        spare pos bound =
      absurd (omega arith)
  fill-loads header_size index e es pre post (s ∷ []) c done room entries current iterator word l
        size spare pos bound =
      absurd (omega arith)
  fill-loads header_size index e [] pre post (s ∷ t ∷ slots) c done room entries current iterator
        word l size spare pos bound =
      let step =
        get_next_entry-loads c e pre post done room (payload_of e) entries (omega arith) iterator
          (omega arith) l.0.complete l.0.size (first_fits e [] room size) in
      let nothing = none_left e room l.0 size in
      let all : (done ++ payload_of e) ++ drop (length (payload_of e)) room ≡ done ++ payload_of e =
        rw nothing (append-nil (done ++ payload_of e)) in
      let finished =
        fill-last header_size index s e.section (t ∷ slots) _ _ step
          (omega (arith, ap length all)) in
      finished
      ∙ ap (built (loaded_table (e ∷ []) (s ∷ t ∷ slots)))
          (all ∙ ap (◌++◌ done) (sym (append-nil (payload_of e))))
  fill-loads header_size index e (e2 ∷ es) pre post (s ∷ t ∷ slots) c done room entries current
        iterator word l size spare pos bound =
      let step =
        get_next_entry-loads c e pre (e2 ∷ es ++ post) done room (payload_of e) entries
          (omega arith) iterator (omega arith) l.0.complete l.0.size
          (first_fits e (e2 ∷ es) room size) in
      let snoc : length (pre ++ e ∷ []) ≡ length pre + 1 = length-append pre (e ∷ []) in
      let grows : fmt.sections_offset + (suc index + suc (length slots)) * fmt.section_size
          ≤ header_size =
        ground arith in
      let in_header : fmt.sections_offset + suc index * fmt.section_size < header_size =
        ground arith in
      let next =
        fill-loads header_size (suc index) e2 es (pre ++ e ∷ []) post (t ∷ slots) (advanced sys c)
          (done ++ payload_of e) (drop (length (payload_of e)) room)
          (entries ∙ sym (append_assoc pre (e ∷ []) (e2 ∷ es ++ post))) (omega (arith, snoc))
          (omega (arith, snoc)) word l.1 (rest_size e (e2 ∷ es) room l.0 size) (omega arith) pos
          grows in
      let moved =
        fill-more header_size index s e.section (t ∷ slots) _ _ step
          (omega (
            arith,
            some_left e e2 es room l.0 l.1.0 size,
            length-append (done ++ payload_of e) (drop (length (payload_of e)) room),
          ))
          in_header in
      moved
      ∙ ap (within e.section) next
      ∙ ap (built (loaded_table (e ∷ e2 ∷ es) (s ∷ t ∷ slots)))
          (append_assoc done (payload_of e) (flat_bytes payload_of (e2 ∷ es)))
