-- ===== src/Database/Pool/Slots.antt =====
-- connection_pool.cpp: which slots of a list are in use.
use oink_judge.Prelude.{
  ℕ, zero, suc, ◌<◌, Bool, true, false, ◌≡◌, refl, ap, inl, inr, Option, none, some, List, [], ◌∷◌,
  ◌++◌, length, ◌==◌, if◌then◌else◌, get_elem?, modify, string_eq, nat_eq, arith, Bool-cases,
}
use oink_judge.Database.Pool.{PoolSlot, try_acquire, mark}

module _ {S : Type 0} where
  abbrev pub in_use_at : ℕ → List (PoolSlot S) → Bool
  in_use_at i slots = elim (get_elem? slots i) [ none ↦ false | some slot ↦ slot.in_use ]

  -- The same slots are in use, but for one that was free.
  abbrev pub Takes : ℕ → List (PoolSlot S) → List (PoolSlot S) → Type 0
  Takes i slots slots' =
      (in_use_at i slots ≡ false)
      × ((j : ℕ) → in_use_at j slots' ≡ (if j == i then true else in_use_at j slots))

  pub in_use_at-modify :
      (f : PoolSlot S → PoolSlot S)
      → ((slot : PoolSlot S) → (f slot).in_use ≡ slot.in_use)
      → (slots : List (PoolSlot S)) (i j : ℕ) → in_use_at j (modify slots i f) ≡ in_use_at j slots
  in_use_at-modify f h [] i j = refl
  in_use_at-modify f h (slot ∷ slots) zero zero = h slot
  in_use_at-modify f h (slot ∷ slots) zero (suc j) = refl
  in_use_at-modify f h (slot ∷ slots) (suc i) zero = refl
  in_use_at-modify f h (slot ∷ slots) (suc i) (suc j) = in_use_at-modify f h slots i j

  pub in_use_at-mark :
      (value : Bool) (slots : List (PoolSlot S)) (i j : ℕ)
      → i < length slots
      → in_use_at j (modify slots i (mark value)) ≡ (if j == i then value else in_use_at j slots)
  in_use_at-mark value [] i j h = absurd (omega (arith, h))
  in_use_at-mark value (slot ∷ slots) zero zero h = refl
  in_use_at-mark value (slot ∷ slots) zero (suc j) h = ground arith
  in_use_at-mark value (slot ∷ slots) (suc i) zero h = ground arith
  in_use_at-mark value (slot ∷ slots) (suc i) (suc j) h =
      ground (arith, in_use_at-mark value slots i j)

  pub in_use_at-append :
      (slots : List (PoolSlot S)) (slot : PoolSlot S) (j : ℕ)
      → slot.in_use ≡ false
      → in_use_at j (slots ++ slot ∷ []) ≡ in_use_at j slots
  in_use_at-append [] slot zero e = e
  in_use_at-append [] slot (suc j) e = refl
  in_use_at-append (x ∷ slots) slot zero e = refl
  in_use_at-append (x ∷ slots) slot (suc j) e = in_use_at-append slots slot j e

  pub in_use_at-length : (slots : List (PoolSlot S)) → in_use_at (length slots) slots ≡ false
  in_use_at-length [] = refl
  in_use_at-length (x ∷ slots) = in_use_at-length slots

  pub length-modify :
      (slots : List (PoolSlot S)) (i : ℕ) (f : PoolSlot S → PoolSlot S)
      → length (modify slots i f) ≡ length slots
  length-modify [] i f = refl
  length-modify (x ∷ slots) zero f = refl
  length-modify (x ∷ slots) (suc i) f = ap suc (length-modify slots i f)

  -- What tryAcquireExistingSlot has found.
  abbrev pub Found : List (PoolSlot S) → Option (ℕ × List (PoolSlot S)) → Type 0
  Found slots none = Unit
  Found slots (some (i, slots')) = Takes i slots slots' × (length slots' ≡ length slots)

  Found-cons :
      (slot : PoolSlot S) (slots : List (PoolSlot S)) (r : Option (ℕ × List (PoolSlot S)))
      → Found slots r
      → Found (slot ∷ slots) (elim r [ none ↦ none | some (i, rest) ↦ some (suc i, slot ∷ rest) ])
  Found-cons slot slots none f = tt
  Found-cons slot slots (some (i, rest)) ((free, others), same) = ((free, shifted), ap suc same)
    where
      shifted :
          (j : ℕ)
          → in_use_at j (slot ∷ rest) ≡ (if j == suc i then true else in_use_at j (slot ∷ slots))
      shifted zero = ground arith
      shifted (suc j) = ground (arith, others j)

  pub try_acquire-Found : (slots : List (PoolSlot S)) → Found slots (try_acquire slots)
  unfolding try_acquire
  try_acquire-Found [] = tt
  try_acquire-Found (slot ∷ slots) = elim (Bool-cases slot.in_use) [
    | inl busy ↦ simp busy (Found-cons slot slots (try_acquire slots) (try_acquire-Found slots))
    | inr free ↦ simp free ((refl, first), refl)
  ]
    where
      first :
          (j : ℕ)
          → in_use_at j (mark true slot ∷ slots)
            ≡ (if j == 0 then true else in_use_at j (slot ∷ slots))
      first zero = refl
      first (suc j) = ground arith
