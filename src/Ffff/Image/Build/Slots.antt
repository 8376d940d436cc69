-- ===== src/Ffff/Image/Build/Slots.antt =====
-- A step of the loop of `new_ffff_romimage`: what it writes into the table and behind it.
use native.Mathlib.Nat.{mul-le-mul_left, mul-suc, mul_comm}
use bootrom_tools.Base.{
  ℕ, suc, ◌+◌, ◌^◌, ◌≤◌, ◌<◌, ◌≡◌, ◌≢◌, ◌⊎◌, inl, inr, refl, ap, ◌∙◌, Bool, true, false, List, [],
  Option, none, some, arith, leb, ◌==◌, if◌then◌else◌, length, take, drop, leb_iff, elim_some,
  length-take, length-drop,
}
use bootrom_tools.Files.{System, store, load_file}
use bootrom_tools.Files.Store.{IsAt, take-IsAt, IsAt-inside}
use bootrom_tools.Ffff.{Format, Element}
use bootrom_tools.Ffff.Image.Build.{Layout, slot_at, slot_bytes, mark_end, next_slot}

pub if_some :
    {A : Type 0} (b : Bool) (x y : Option A) {a : A}
    → (if b then x else y) ≡ some a
    → ((b ≡ true) × (x ≡ some a)) ⊎ ((b ≡ false) × (y ≡ some a))
if_some true x y e = inl (refl, e)
if_some false x y e = inr (refl, e)

module _ (sys : System) where
  pub load_file_all :
      (name : sys.FileName) (len : ℕ) (bytes : List ℕ)
      → load_file sys name len ≡ (bytes, true)
      → length bytes ≡ len
  unfolding load_file
  load_file_all name len bytes e = by_read (sys.read name len) e
    where
      by_read :
          (r : Option (List ℕ))
          → ◌≡◌ {A = List ℕ × Bool}
              (elim r [ none ↦ ([], false) | some b ↦ (b, length b == len) ])
              (bytes, true)
          → length bytes ≡ len
      by_read none g = absurd (cc g)
      by_read (some b) g =
          let tested : (length b == len) ≡ true = cc in
          let same : b ≡ bytes = cc in ground (arith, tested, same)

module _ (sys : System) (fmt : Format) (layout : Layout) where
  -- The bytes before the table, those of a descriptor, and its type, as `ffff.h` has them.
  pub record IsTyped : Type 0 where
    pub some_bytes : 0 < layout.element_size
    pub size : (e : Element) → length (fmt.element_bytes e) ≡ layout.element_size
    pub start_size :
        (now named : List ℕ) (capacity erase_block_size header_size image_length generation : ℕ)
        → length (
            layout.start_bytes now named capacity erase_block_size header_size image_length
              generation)
          ≤ layout.elements_offset
    pub same_size :
        (type : ℕ) (bytes : List ℕ) → length (layout.with_type type bytes) ≡ length bytes
    pub type_of_bytes :
        (e : Element)
        → e.element_type < 2 ^ 8
        → layout.type_of (fmt.element_bytes e) ≡ e.element_type
    pub type_of_end :
        (bytes : List ℕ)
        → length bytes ≡ layout.element_size
        → layout.type_of (layout.with_type fmt.element_end bytes) ≡ fmt.element_end

  abbrev pub slot : ℕ → ℕ
  slot = slot_at sys fmt layout

  pub slot_before : (i k : ℕ) → i < k → slot i + layout.element_size ≤ slot k
  slot_before i k h =
      let gap = mul-le-mul_left {m = suc i} {n = k} layout.element_size (omega arith) in
      omega (
        arith,
        gap,
        mul-suc layout.element_size i,
        mul_comm layout.element_size i,
        mul_comm layout.element_size k,
      )

  abbrev bytes_at : List ℕ → ℕ → Option (List ℕ)
  bytes_at = slot_bytes sys fmt layout

  pub slot_bytes-IsAt :
      (blob : List ℕ) (k : ℕ) (bytes : List ℕ)
      → IsAt blob (slot k) bytes
      → length bytes ≡ layout.element_size
      → 0 < layout.element_size
      → bytes_at blob k ≡ some bytes
  slot_bytes-IsAt blob k bytes placed size some_bytes =
      let inside = IsAt-inside blob (slot k) bytes placed (omega arith) in
      let same = take-IsAt blob (slot k) bytes placed in
      let room : leb (slot k + layout.element_size) (length blob) ≡ true =
        ground (arith, inside, size) in
      rw room (ap some (rw size at same))

  pub slot_bytes-length :
      (blob : List ℕ) (k : ℕ) (bytes : List ℕ)
      → bytes_at blob k ≡ some bytes
      → length bytes ≡ layout.element_size
  slot_bytes-length blob k bytes e =
      elim (if_some (leb (slot k + layout.element_size) (length blob)) _ none e) [
        | inr (outside, g) ↦ absurd (cc g)
        | inl (inside, g) ↦
            let same : take layout.element_size (drop (slot k) blob) ≡ bytes = cc in
            omega (
              arith,
              ap length same,
              length-take layout.element_size (drop (slot k) blob),
              length-drop (slot k) blob,
              (leb_iff (slot k + layout.element_size) (length blob)).0 inside,
            )
      ]

  pub slot_bytes_total :
      (blob : List ℕ) (k : ℕ)
      → slot k + layout.element_size ≤ length blob
      → (bytes : List ℕ) × (bytes_at blob k ≡ some bytes)
  slot_bytes_total blob k h =
      let room : leb (slot k + layout.element_size) (length blob) ≡ true = ground (arith, h) in
      (take layout.element_size (drop (slot k) blob), rw room refl)

  -- The slot behind a descriptor becomes the end marker.
  pub next_slot-moves :
      (typed : IsTyped) (blob : List ℕ) (k : ℕ) (e : Element) (k' : ℕ) (marked : List ℕ)
      → IsAt blob (slot k) (fmt.element_bytes e)
      → e.element_type < 2 ^ 8
      → e.element_type ≢ fmt.element_end
      → next_slot sys fmt layout k blob ≡ some (k', marked)
      → (k' ≡ suc k)
        × (bytes : List ℕ) × (length bytes ≡ layout.element_size)
        × (layout.type_of bytes ≡ fmt.element_end)
        × (store blob (slot (suc k)) bytes ≡ some marked)
  unfolding next_slot mark_end
  next_slot-moves typed blob k e k' marked placed small known h =
      let (bytes, found, h1) = elim_some (bytes_at blob k) _ h in
      let same : bytes ≡ fmt.element_bytes e =
        let there = slot_bytes-IsAt blob k _ placed (typed.size e) typed.some_bytes in cc in
      let type : layout.type_of bytes ≡ e.element_type =
        ap layout.type_of same ∙ typed.type_of_bytes e small in
      elim (if_some (layout.type_of bytes == fmt.element_end) _ _ h1) [
        | inl (ended, g) ↦ absurd (known (ground (arith, ended, type)))
        | inr (going, g) ↦
            let (marked', h2, g2) = elim_some (mark_end sys fmt layout blob (suc k)) _ g in
            let (old, found', h3) = elim_some (bytes_at blob (suc k)) _ h2 in
            let old_size = slot_bytes-length blob (suc k) old found' in
            (
              cc,
              layout.with_type fmt.element_end old,
              typed.same_size fmt.element_end old ∙ old_size,
              typed.type_of_end old old_size,
              cc,
            )
      ]

  -- The end marker stays where it is.
  pub next_slot-stays :
      (typed : IsTyped) (blob : List ℕ) (k : ℕ) (bytes : List ℕ)
      → IsAt blob (slot k) bytes
      → length bytes ≡ layout.element_size
      → layout.type_of bytes ≡ fmt.element_end
      → next_slot sys fmt layout k blob ≡ some (k, blob)
  unfolding next_slot
  next_slot-stays typed blob k bytes placed size ended =
      let found = slot_bytes-IsAt blob k bytes placed size typed.some_bytes in
      let test : (layout.type_of bytes == fmt.element_end) ≡ true = ground (arith, ended) in
      rw (next_slot, found, test) refl
