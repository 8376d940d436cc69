-- ===== src/Ffff/Image/Build/Loaded.antt =====
-- The loop of `new_ffff_romimage` loads the cached elements.
use bootrom_tools.Base.{
  ℕ, suc, ◌+◌, ◌%◌, ◌^◌, ◌≤◌, ◌<◌, ◌≡◌, ◌≢◌, ◌⊎◌, inl, inr, true, List, some, arith, ltb, length,
  get_elem?, Option-cases, get_elem?-none_iff,
}
use bootrom_tools.Files.{System, store, load_file}
use bootrom_tools.Files.Store.{IsAt, store-IsAt, IsAt-store}
use bootrom_tools.Ffff.{Format}
use bootrom_tools.Ffff.Cache.{Entry, Cache}
use bootrom_tools.Ffff.Load.{advanced, entry_at_iterator}
use bootrom_tools.Ffff.Image.Build.{Layout, slot_at}
use bootrom_tools.Ffff.Image.Build.Slots.{IsTyped, slot_before}
use bootrom_tools.Ffff.Image.Build.Payload.{StoresPayload}

-- Two ranges of bytes that do not meet.
abbrev pub Apart : ℕ → ℕ → ℕ → ℕ → Type 0
Apart at len at' len' = (at + len ≤ at') ⊎ (at' + len' ≤ at)

module _ (sys : System) (fmt : Format) (layout : Layout) where
  abbrev slot : ℕ → ℕ
  slot = slot_at sys fmt layout

  -- The table has room for the cached elements and the end marker before `limit`, the payloads lie
  -- behind `start`, and no two of them meet.
  pub record HasRoom (limit start : ℕ) (c : Cache sys) : Type 0 where
    pub counted : c.current_element < 2 ^ 32
    pub cached : c.current_element ≤ length c.entries
    pub table : slot (suc c.current_element) ≤ limit
    pub in_order : limit ≤ start
    pub in_range :
        (k : ℕ) (e : Entry sys)
        → k < c.current_element
        → get_elem? c.entries k ≡ some e
        → e.element.element_type < 2 ^ 8
    pub known :
        (k : ℕ) (e : Entry sys)
        → k < c.current_element
        → get_elem? c.entries k ≡ some e
        → e.element.element_type ≢ fmt.element_end
    pub behind :
        (k : ℕ) (e : Entry sys)
        → k < c.current_element
        → get_elem? c.entries k ≡ some e
        → start ≤ e.element.element_location
    pub apart :
        (j k : ℕ) (d e : Entry sys)
        → j < k
        → k < c.current_element
        → get_elem? c.entries j ≡ some d
        → get_elem? c.entries k ≡ some e
        → Apart d.element.element_location d.element.element_length e.element.element_location
            e.element.element_length

  -- The descriptor in its slot of the table, and the content of the file at the element's location.
  pub record IsLoaded (k : ℕ) (e : Entry sys) (blob : List ℕ) : Type 0 where
    pub name : sys.FileName
    pub bytes : List ℕ
    pub named : e.filename ≡ some name
    pub read : load_file sys name e.element.element_length ≡ (bytes, true)
    pub whole : length bytes ≡ e.element.element_length
    pub descriptor : IsAt blob (slot k) (fmt.element_bytes e.element)
    pub payload : IsAt blob e.element.element_location bytes

  pub record IsEnded (k : ℕ) (blob : List ℕ) : Type 0 where
    pub bytes : List ℕ
    pub size : length bytes ≡ layout.element_size
    pub marker : layout.type_of bytes ≡ fmt.element_end
    pub placed : IsAt blob (slot k) bytes

  module _ (typed : IsTyped sys fmt layout) where
    -- A write elsewhere leaves an element as it was.
    pub IsLoaded-store :
        (k : ℕ) (e : Entry sys) (blob : List ℕ) (at : ℕ) (bytes written : List ℕ)
        → store blob at bytes ≡ some written
        → Apart (slot k) layout.element_size at (length bytes)
        → Apart e.element.element_location e.element.element_length at (length bytes)
        → IsLoaded k e blob
        → IsLoaded k e written
    IsLoaded-store k e blob at bytes written w table there h = record {
      name = h.name;
      bytes = h.bytes;
      named = h.named;
      read = h.read;
      whole = h.whole;
      descriptor =
          IsAt-store blob at bytes written w (slot k) _ (rw (typed.size e.element) table)
            h.descriptor;
      payload =
          IsAt-store blob at bytes written w e.element.element_location h.bytes (rw h.whole there)
            h.payload;
    }

    pub IsEnded-store :
        (k : ℕ) (blob : List ℕ) (at : ℕ) (bytes written : List ℕ)
        → store blob at bytes ≡ some written
        → Apart (slot k) layout.element_size at (length bytes)
        → IsEnded k blob
        → IsEnded k written
    IsEnded-store k blob at bytes written w table h = record {
      bytes = h.bytes;
      size = h.size;
      marker = h.marker;
      placed = IsAt-store blob at bytes written w (slot k) h.bytes (rw h.size table) h.placed;
    }

    -- A cache whose elements have room, one of them, and a step of the loop at another entry.
    module _ (limit start : ℕ) (c : Cache sys) (room : HasRoom limit start c) where
      -- The cache has an entry for each slot.
      pub entry_at :
          (k : ℕ) → k < c.current_element → (f : Entry sys) × (get_elem? c.entries k ≡ some f)
      entry_at k h = elim (Option-cases (get_elem? c.entries k)) [
        | inr there ↦ there
        | inl missing ↦
            absurd (omega (arith, room.cached, (get_elem?-none_iff c.entries k).0 missing))
      ]

      pub entry_at_iterator-here :
          (k it : ℕ) (f : Entry sys)
          → (it + 1) % 2 ^ 32 ≡ k
          → k < c.current_element
          → get_elem? c.entries k ≡ some f
          → entry_at_iterator sys (advanced sys (record c { element_iterator = it })) ≡ some f
      unfolding entry_at_iterator
      entry_at_iterator-here k it f at h there =
          let test : ltb k c.current_element ≡ true = ground (arith, h) in rw (at, test) there

      pub slot_inside : (k : ℕ) → k ≤ c.current_element → slot k + layout.element_size ≤ limit
      slot_inside k h =
          omega
            (arith, slot_before sys fmt layout k (suc c.current_element) (omega arith), room.table)

      pub before_payload :
          (k j : ℕ) (e : Entry sys)
          → k ≤ c.current_element
          → j < c.current_element
          → get_elem? c.entries j ≡ some e
          → slot k + layout.element_size ≤ e.element.element_location
      before_payload k j e h inside found =
          omega (arith, slot_inside k h, room.in_order, room.behind j e inside found)

      -- The step's own element.
      pub step_own :
          (k : ℕ) (e : Entry sys) (blob described loaded : List ℕ)
          → k < c.current_element
          → get_elem? c.entries k ≡ some e
          → store blob (slot k) (fmt.element_bytes e.element) ≡ some described
          → StoresPayload sys fmt layout e described loaded
          → IsLoaded k e loaded
      step_own k e blob described loaded h found w (name, bytes, named, read, whole, p) = record {
        name = name;
        bytes = bytes;
        named = named;
        read = read;
        whole = whole;
        descriptor =
            IsAt-store described e.element.element_location bytes loaded p (slot k) _
              (inl
                (omega (arith, typed.size e.element, before_payload k k e (omega arith) h found)))
              (store-IsAt blob (slot k) (fmt.element_bytes e.element) described w);
        payload = store-IsAt described e.element.element_location bytes loaded p;
      }

      -- An earlier element.
      pub step_other :
          (i k : ℕ) (d e : Entry sys) (blob described loaded : List ℕ)
          → i < k
          → k < c.current_element
          → get_elem? c.entries i ≡ some d
          → get_elem? c.entries k ≡ some e
          → store blob (slot k) (fmt.element_bytes e.element) ≡ some described
          → StoresPayload sys fmt layout e described loaded
          → IsLoaded i d blob
          → IsLoaded i d loaded
      step_other i k d e blob described loaded before h found_i found_k w
            (name, bytes, named, read, whole, p) old =
          let size = typed.size e.element in
          let kept =
            IsLoaded-store i d blob (slot k) (fmt.element_bytes e.element) described w
              (inl (slot_before sys fmt layout i k before))
              (inr (omega (arith, size, before_payload k i d (omega arith) (omega arith) found_i)))
              old in
          IsLoaded-store i d described e.element.element_location bytes loaded p
            (inl (before_payload i k e (omega arith) h found_k))
            (rw whole (room.apart i k d e before h found_i found_k)) kept

      -- The end marker behind it.
      pub step_end :
          (i k : ℕ) (d : Entry sys) (bytes loaded marked : List ℕ)
          → i < suc k
          → k < c.current_element
          → get_elem? c.entries i ≡ some d
          → length bytes ≡ layout.element_size
          → store loaded (slot (suc k)) bytes ≡ some marked
          → IsLoaded i d loaded
          → IsLoaded i d marked
      step_end i k d bytes loaded marked before h found size w =
          IsLoaded-store i d loaded (slot (suc k)) bytes marked w
            (inl (slot_before sys fmt layout i (suc k) before))
            (inr
              (omega (arith, size, before_payload (suc k) i d (omega arith) (omega arith) found)))
