-- ===== src/Ffff/Image/Build/Fills.antt =====
-- The loop of `new_ffff_romimage` fills the image with every cached element.
use bootrom_tools.Base.{
  ℕ, zero, suc, ◌+◌, ◌%◌, ◌^◌, ◌≤◌, ◌<◌, ◌≡◌, ◌≢◌, inl, inr, refl, sym, ap, ◌∙◌, false, List,
  Option, none, some, arith, ltb, if◌then◌else◌, length, get_elem?, Bool-cases, ltb_iff,
}
use bootrom_tools.Files.{System, store}
use bootrom_tools.Files.Store.{store-IsAt}
use bootrom_tools.Ffff.{Format}
use bootrom_tools.Ffff.Cache.{Entry, Cache}
use bootrom_tools.Ffff.Load.{Status, error, end_of_list, stored}
use bootrom_tools.Ffff.Image.Build.{
  Layout, Outcome, filled, slot_at, next_into, next_slot, add_elements,
}
use bootrom_tools.Ffff.Image.Build.Slots.{IsTyped, next_slot-moves, next_slot-stays}
use bootrom_tools.Ffff.Image.Build.Payload.{StoresPayload, load_entry-stored, next_into-stored}
use bootrom_tools.Ffff.Image.Build.Loaded.{
  HasRoom, IsLoaded, IsEnded, entry_at, entry_at_iterator-here, step_own, step_other, step_end,
}
use bootrom_tools.Ffff.Image.Build.Ends.{added-fault, added-lost, added-step, next_into-past}

module _ (sys : System) (fmt : Format) (layout : Layout) (typed : IsTyped sys fmt layout)
    (limit start : ℕ) (c : Cache sys) (room : HasRoom sys fmt layout limit start c) (max : ℕ)
    (enough : c.current_element ≤ max) (i : ℕ) (e : Entry sys) (cached : i < c.current_element)
    (found : get_elem? c.entries i ≡ some e) (status : Status) (final : List ℕ)
    (good : status ≢ error) where
  abbrev at_iterator : ℕ → Cache sys
  at_iterator it = record c { element_iterator = it }

  abbrev added : ℕ → ℕ → ℕ → List ℕ → Outcome
  added fuel k it blob = add_elements sys fmt layout fuel max k (at_iterator it) blob

  -- What the loop keeps once it has come to slot `k`.
  record IsFilled (k : ℕ) (blob : List ℕ) : Type 0 where
    loaded : i < k → IsLoaded sys fmt layout i e blob
    ended : IsEnded sys fmt layout k blob

  step-IsFilled :
      (k : ℕ) (f : Entry sys) (blob described loaded bytes marked : List ℕ)
      → k < c.current_element
      → get_elem? c.entries k ≡ some f
      → store blob (slot_at sys fmt layout k) (fmt.element_bytes f.element) ≡ some described
      → StoresPayload sys fmt layout f described loaded
      → length bytes ≡ layout.element_size
      → layout.type_of bytes ≡ fmt.element_end
      → store loaded (slot_at sys fmt layout (suc k)) bytes ≡ some marked
      → IsFilled k blob
      → IsFilled (suc k) marked
  step-IsFilled k f blob described loaded bytes marked h there w p size marker m before = record {
    loaded = λ h'.
        step_end sys fmt layout typed limit start c room i k e bytes loaded marked h' h found size m
          (elim (Bool-cases (ltb i k)) [
            | inl earlier ↦
                let less = (ltb_iff i k).0 earlier in
                step_other sys fmt layout typed limit start c room i k e f blob described loaded
                  less h found there w p (before.loaded less)
            | inr here ↦
                let same : i ≡ k = ground (arith, here, h') in
                let entry : e ≡ f = let both = ap (get_elem? c.entries) same in cc in
                rw (same, entry)
                  (step_own sys fmt layout typed limit start c room k f blob described loaded h
                    there w p)
          ]);
    ended = record {
      bytes = bytes;
      size = size;
      marker = marker;
      placed = store-IsAt loaded (slot_at sys fmt layout (suc k)) bytes marked m;
    };
  }

  abbrev Result : Type 0
  Result = IsLoaded sys fmt layout i e final × IsEnded sys fmt layout c.current_element final

  finished :
      (k : ℕ) (blob : List ℕ) → k ≡ c.current_element → IsFilled k blob → blob ≡ final → Result
  finished k blob last h same = rw (sym same) (h.loaded (omega arith), rw (sym last) h.ended)

  -- Behind the last entry the blob stays as it is.
  past :
      (fuel k it : ℕ) (blob loaded marked : List ℕ) (st : Status) (k' : ℕ)
      → (it + 1) % 2 ^ 32 ≡ k
      → k ≡ c.current_element
      → IsFilled k blob
      → next_into sys fmt layout k (at_iterator it) blob ≡ some (st, loaded)
      → next_slot sys fmt layout k loaded ≡ some (k', marked)
      → added (suc fuel) k it blob ≡ filled status final
      → Result
  past fuel k it blob loaded marked st k' at last h n m r =
      let test : ltb ((it + 1) % 2 ^ 32) c.current_element ≡ false = ground (arith, at, last) in
      let over = next_into-past sys fmt layout k (at_iterator it) blob test in
      let ended = h.ended in
      let stays =
        next_slot-stays sys fmt layout typed blob k ended.bytes ended.placed ended.size
          ended.marker in
      let step =
        added-step sys fmt layout fuel max k k (at_iterator it) blob blob blob end_of_list over
          stays in
      finished k blob last h (cc (step, r))

  -- What a step that is no error goes on with.
  going_on :
      (k' : ℕ) (marked : List ℕ) (st : Status) (rest : Outcome)
      → elim st [
        | stored ↦ if ltb k' max then rest else filled stored marked
        | error ↦ filled error marked
        | end_of_list ↦ filled end_of_list marked
      ]
        ≡ filled status final
      → st ≢ error
  going_on k' marked error rest r = absurd (good (cc))
  going_on k' marked end_of_list rest r = λ h. cc
  going_on k' marked stored rest r = λ h. cc

  -- A step at an entry fills its slot, and the loop goes on or has no room.
  fill_slot :
      (fuel k it : ℕ) (f : Entry sys) (blob loaded marked : List ℕ) (st : Status) (k' : ℕ)
      → (it + 1) % 2 ^ 32 ≡ k
      → k < c.current_element
      → get_elem? c.entries k ≡ some f
      → IsFilled k blob
      → next_into sys fmt layout k (at_iterator it) blob ≡ some (st, loaded)
      → next_slot sys fmt layout k loaded ≡ some (k', marked)
      → added (suc fuel) k it blob ≡ filled status final
      → IsFilled (suc k) marked
        × ◌≡◌ {A = Outcome}
            (if ltb (suc k) max
              then added fuel (suc k) ((it + 1) % 2 ^ 32) marked
              else filled stored marked)
            (filled status final)
  fill_slot fuel k it f blob loaded marked st k' at h there before n m r =
      let step =
        sym (added-step sys fmt layout fuel max k k' (at_iterator it) blob loaded marked st n m)
        ∙ r in
      let no_error = going_on k' marked st _ step in
      let (is_stored, described, w, p) =
        next_into-stored sys fmt layout k (at_iterator it) f blob loaded st
          (entry_at_iterator-here sys fmt layout typed limit start c room k it f at h there) n
          no_error in
      let payload = load_entry-stored sys fmt layout f described loaded p in
      let own =
        step_own sys fmt layout typed limit start c room k f blob described loaded h there w
          payload in
      let (next, bytes, size, marker, m') =
        next_slot-moves sys fmt layout typed loaded k f.element k' marked own.descriptor
          (room.in_range k f h there) (room.known k f h there) m in
      (
        step-IsFilled k f blob described loaded bytes marked h there w payload size marker m'
            before,
        rw (is_stored, next) at step,
      )

  step-Result :
      (fuel k it : ℕ) (blob : List ℕ) (s : Option (Status × List ℕ))
      → (it + 1) % 2 ^ 32 ≡ k
      → k ≤ c.current_element
      → IsFilled k blob
      → ((marked : List ℕ)
          → k < c.current_element
          → IsFilled (suc k) marked
          → added fuel (suc k) ((it + 1) % 2 ^ 32) marked ≡ filled status final
          → Result)
      → next_into sys fmt layout k (at_iterator it) blob ≡ s
      → added (suc fuel) k it blob ≡ filled status final
      → Result
  step-Result fuel k it blob none at inside h later n r =
      absurd (cc (added-fault sys fmt layout fuel max k (at_iterator it) blob n, r))
  step-Result fuel k it blob (some (st, loaded)) at inside h later n r =
      by_slot (next_slot sys fmt layout k loaded) refl
    where
      by_slot : (s : Option (ℕ × List ℕ)) → next_slot sys fmt layout k loaded ≡ s → Result
      by_slot none m =
          absurd (cc (added-lost sys fmt layout fuel max k (at_iterator it) blob loaded st n m, r))
      by_slot (some (k', marked)) m = elim (Bool-cases (ltb k c.current_element)) [
        | inr last ↦
            past fuel k it blob loaded marked st k' at (ground (arith, last, inside)) h n m r
        | inl more ↦
            let less = (ltb_iff k c.current_element).0 more in
            let (f, there) = entry_at sys fmt layout typed limit start c room k less in
            let (h', rest) = fill_slot fuel k it f blob loaded marked st k' at less there h n m r in
            elim (Bool-cases (ltb (suc k) max)) [
              | inl below ↦ later marked less h' (cc (rest, below))
              | inr full ↦
                  let last : suc k ≡ c.current_element = ground (arith, full, less, enough) in
                  finished (suc k) marked last h' (cc (rest, full))
            ]
      ]

  -- On any fuel on which it ends without an error, the loop has loaded the element.
  loop-Result :
      (fuel k it : ℕ) (blob : List ℕ)
      → (it + 1) % 2 ^ 32 ≡ k
      → k ≤ c.current_element
      → IsFilled k blob
      → added fuel k it blob ≡ filled status final
      → Result
  unfolding add_elements
  loop-Result zero k it blob at inside h r = absurd (cc r)
  loop-Result (suc fuel) k it blob at inside h r =
      step-Result fuel k it blob _ at inside h
        (λ marked less h' r'.
          loop-Result fuel (suc k) ((it + 1) % 2 ^ 32) marked
            (omega (arith, at, room.counted, less)) (omega arith) h' r')
        refl r

  -- On any fuel on which the loop ends without an error, it has loaded the element, and the end
  -- marker stands behind the last one.
  pub add_elements-IsLoaded :
      (fuel it : ℕ) (blob : List ℕ)
      → (it + 1) % 2 ^ 32 ≡ 0
      → IsEnded sys fmt layout 0 blob
      → added fuel 0 it blob ≡ filled status final
      → Result
  add_elements-IsLoaded fuel it blob at ended r =
      loop-Result fuel 0 it blob at (omega arith)
        (record { loaded = λ h. absurd (omega arith); ended = ended }) r
