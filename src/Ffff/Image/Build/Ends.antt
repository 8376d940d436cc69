-- ===== src/Ffff/Image/Build/Ends.antt =====
-- The loop of `new_ffff_romimage` ends.
use bootrom_tools.Base.{
  ℕ, zero, suc, ◌+◌, ◌%◌, ◌^◌, ◌≤◌, ◌<◌, ◌≡◌, ◌≢◌, refl, Bool, true, false, List, Option, none,
  some, arith, ltb, if◌then◌else◌, Bool-cases, inl, inr,
}
use bootrom_tools.Files.{System}
use bootrom_tools.Ffff.{Format}
use bootrom_tools.Ffff.Cache.{Cache, init_iterator}
use bootrom_tools.Ffff.Load.{Status, error, end_of_list, stored, advanced, entry_at_iterator}
use bootrom_tools.Ffff.Image.Build.{
  Layout, Outcome, fault, no_fuel, filled, next_into, next_slot, add_elements,
}

module _ (sys : System) (fmt : Format) (layout : Layout) where
  entry_at_iterator-past :
      (c : Cache sys)
      → ltb c.element_iterator c.current_element ≡ false
      → entry_at_iterator sys c ≡ none
  unfolding entry_at_iterator
  entry_at_iterator-past c h = rw h refl

  pub next_into-past :
      (slot : ℕ) (c : Cache sys) (blob : List ℕ)
      → ltb ((c.element_iterator + 1) % 2 ^ 32) c.current_element ≡ false
      → next_into sys fmt layout slot c blob ≡ some (end_of_list, blob)
  unfolding next_into
  next_into-past slot c blob h = rw (next_into, entry_at_iterator-past (advanced sys c) h) refl

  abbrev added : ℕ → ℕ → ℕ → Cache sys → List ℕ → Outcome
  added = add_elements sys fmt layout

  pub added-fault :
      (fuel max slot : ℕ) (c : Cache sys) (blob : List ℕ)
      → next_into sys fmt layout slot c blob ≡ none
      → added (suc fuel) max slot c blob ≡ fault
  unfolding add_elements
  added-fault fuel max slot c blob e = rw (add_elements, e) refl

  pub added-lost :
      (fuel max slot : ℕ) (c : Cache sys) (blob loaded : List ℕ) (status : Status)
      → next_into sys fmt layout slot c blob ≡ some (status, loaded)
      → next_slot sys fmt layout slot loaded ≡ none
      → added (suc fuel) max slot c blob ≡ fault
  unfolding add_elements
  added-lost fuel max slot c blob loaded status e n = rw (add_elements, e, n) refl

  pub added-step :
      (fuel max slot slot' : ℕ) (c : Cache sys) (blob loaded marked : List ℕ) (status : Status)
      → next_into sys fmt layout slot c blob ≡ some (status, loaded)
      → next_slot sys fmt layout slot loaded ≡ some (slot', marked)
      → added (suc fuel) max slot c blob ≡ elim status [
        | stored ↦
            if ltb slot' max
            then added fuel max slot' (advanced sys c) marked
            else filled stored marked
        | error ↦ filled error marked
        | end_of_list ↦ filled end_of_list marked
      ]
  unfolding add_elements
  added-step fuel max slot slot' c blob loaded marked status e n = rw (add_elements, e, n) refl

  abbrev Ended : Outcome → Type 0
  Ended o = o ≢ no_fuel

  chosen-Ended : (b : Bool) (x y : Outcome) → Ended x → Ended y → Ended (if b then x else y)
  chosen-Ended true x y hx hy = hx
  chosen-Ended false x y hx hy = hy

  added-Ended :
      (fuel max slot : ℕ) (c : Cache sys) (blob : List ℕ) (r : Option (Status × List ℕ))
      → next_into sys fmt layout slot c blob ≡ r
      → ((slot' : ℕ) (marked : List ℕ)
          → ltb ((c.element_iterator + 1) % 2 ^ 32) c.current_element ≡ true
          → Ended (added fuel max slot' (advanced sys c) marked))
      → Ended (added (suc fuel) max slot c blob)
  added-Ended fuel max slot c blob none e later = λ h. cc (added-fault fuel max slot c blob e, h)
  added-Ended fuel max slot c blob (some (status, loaded)) e later =
      by_slot (next_slot sys fmt layout slot loaded) refl
    where
      by_status :
          (slot' : ℕ) (marked : List ℕ) (st : Status)
          → st ≡ status
          → Ended (elim st [
            | stored ↦
                if ltb slot' max
                then added fuel max slot' (advanced sys c) marked
                else filled stored marked
            | error ↦ filled error marked
            | end_of_list ↦ filled end_of_list marked
          ])
      by_status slot' marked error same = λ h. cc h
      by_status slot' marked end_of_list same = λ h. cc h
      by_status slot' marked stored same =
          elim (Bool-cases (ltb ((c.element_iterator + 1) % 2 ^ 32) c.current_element)) [
            | inl more ↦
                chosen-Ended (ltb slot' max) _ (filled stored marked) (later slot' marked more)
                  (λ h. cc h)
            | inr past ↦ absurd (cc (next_into-past slot c blob past, e, same))
          ]

      by_slot :
          (n : Option (ℕ × List ℕ))
          → next_slot sys fmt layout slot loaded ≡ n
          → Ended (added (suc fuel) max slot c blob)
      by_slot none n = λ h. cc (added-lost fuel max slot c blob loaded status e n, h)
      by_slot (some (slot', marked)) n =
          rw (added-step fuel max slot slot' c blob loaded marked status e n)
            (by_status slot' marked status refl)

  add_elements-Ended :
      (fuel max slot : ℕ) (c : Cache sys) (blob : List ℕ)
      → c.current_element < 2 ^ 32
      → (c.element_iterator + 1) % 2 ^ 32 ≤ c.current_element
      → c.current_element < fuel + (c.element_iterator + 1) % 2 ^ 32
      → Ended (added fuel max slot c blob)
  add_elements-Ended zero max slot c blob small inside enough = absurd (omega arith)
  add_elements-Ended (suc fuel) max slot c blob small inside enough =
      added-Ended fuel max slot c blob _ refl (λ slot' marked more.
        let below : (c.element_iterator + 1) % 2 ^ 32 < c.current_element = ground (arith, more) in
        add_elements-Ended fuel max slot' (advanced sys c) marked small (omega arith) (omega arith))

  -- On the fuel that `new_ffff_romimage` gives it, and with fewer than 2^32 cached elements, the loop
  -- over the cache ends.
  add_elements_ends :
      (max : ℕ) (c : Cache sys) (blob : List ℕ)
      → c.current_element < 2 ^ 32
      → add_elements sys fmt layout (c.current_element + 2) max 0 (init_iterator sys c) blob
        ≢ no_fuel
  unfolding init_iterator
  add_elements_ends max c blob small =
      add_elements-Ended (c.current_element + 2) max 0 (init_iterator sys c) blob small
        (omega arith) (omega arith)
