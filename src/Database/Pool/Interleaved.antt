-- ===== src/Database/Pool/Interleaved.antt =====
-- connection_pool.cpp: acquire as the steps that its locked sections and its waits make of it, for
-- any number of calls at once. Of createSlot only the push is kept, and of the end of acquire
-- nothing: a call that has its slot counts among the holders of the slot.
use mathlib.Core.Path.{subst}
use oink_judge.Prelude.{
  ℕ, zero, suc, ◌+◌, true, false, ◌≡◌, refl, none, some, List, [], ◌∷◌, ◌++◌, length, get_elem?,
  modify, erase_at, arith, ltb, length-append, Bool-cases, inl, inr, Option-cases,
}
use oink_judge.Database.Connection.{Connection}
use oink_judge.Database.Pool.{PoolSlot, Pool, try_acquire, mark}

-- The pool, how many calls are to create a slot, the slots that were pushed and are not yet marked,
-- and the slots of the calls and leases that have one.
pub record PoolCalls (S : Type 0) : Type 0 where
  pub pool : Pool S
  pub creating : ℕ
  pub pushed : List ℕ
  pub holders : List ℕ

module _ {S : Type 0} where
  abbrev pub with_slots : List (PoolSlot S) → Pool S → Pool S
  with_slots slots pool = record pool { slots = slots }

  abbrev pub free_slot : Connection S → PoolSlot S
  free_slot connection = record { connection = connection; in_use = false }

  -- A call takes a free slot; it finds none and room for one more; it pushes the slot that it has
  -- connected, or cannot connect it; it marks the slot; a lease is released.
  pub data CallStep : PoolCalls S → PoolCalls S → Type 0 where
    takes :
        {q : PoolCalls S} {i : ℕ} {slots : List (PoolSlot S)}
        → try_acquire q.pool.slots ≡ some (i, slots)
        → CallStep q (record q { pool = with_slots slots q.pool; holders = i ∷ q.holders })
    decides :
        {q : PoolCalls S}
        → try_acquire q.pool.slots ≡ none
        → ltb (length q.pool.slots) q.pool.pool_max ≡ true
        → CallStep q (record q { creating = suc q.creating })
    pushes :
        {q : PoolCalls S} {n : ℕ} (connection : Connection S)
        → q.creating ≡ suc n
        → CallStep q (record q {
          pool = with_slots (q.pool.slots ++ free_slot connection ∷ []) q.pool;
          creating = n;
          pushed = length q.pool.slots ∷ q.pushed;
        })
    gives_up :
        {q : PoolCalls S} {n : ℕ} → q.creating ≡ suc n → CallStep q (record q { creating = n })
    marks :
        {q : PoolCalls S} (k : ℕ) {i : ℕ}
        → get_elem? q.pushed k ≡ some i
        → CallStep q (record q {
          pool = with_slots (modify q.pool.slots i (mark true)) q.pool;
          pushed = erase_at q.pushed k;
          holders = i ∷ q.holders;
        })
    frees :
        {q : PoolCalls S} (k : ℕ) {i : ℕ}
        → get_elem? q.holders k ≡ some i
        → CallStep q (record q {
          pool = with_slots (modify q.pool.slots i (mark false)) q.pool;
          holders = erase_at q.holders k;
        })

  pub data CallSteps : PoolCalls S → PoolCalls S → Type 0 where
    calls_done : {q : PoolCalls S} → CallSteps q q
    calls_more : {q r s : PoolCalls S} → CallStep q r → CallSteps r s → CallSteps q s

  none_of_rest :
      (slot : PoolSlot S) (slots : List (PoolSlot S))
      → try_acquire (slot ∷ slots) ≡ none
      → (slot.in_use ≡ true) × (try_acquire slots ≡ none)
  unfolding try_acquire
  none_of_rest slot slots e = elim (Bool-cases slot.in_use) [
    | inl used ↦ elim (Option-cases (try_acquire slots)) [
      | inl nothing ↦ (used, nothing)
      | inr (found, some_slot) ↦ absurd (ground (arith, e, used, some_slot))
    ]
    | inr free ↦ absurd (ground (arith, e, free))
  ]

  -- The new slot is the one that is found.
  try_acquire-append :
      (slots : List (PoolSlot S)) (connection : Connection S)
      → try_acquire slots ≡ none
      → try_acquire (slots ++ free_slot connection ∷ [])
        ≡ some (length slots, slots ++ mark true (free_slot connection) ∷ [])
  unfolding try_acquire
  try_acquire-append [] connection e = refl
  try_acquire-append (slot ∷ slots) connection e =
      let (used, nothing) = none_of_rest slot slots e in
      simp (used, try_acquire-append slots connection nothing)

  -- When a call is about to create a slot while every slot is in use, there are steps after which
  -- that call and another one have the same slot, the one that was created: it can be taken as free
  -- before the call that created it marks it.
  pub shared_slot :
      (q : PoolCalls S) {n : ℕ} (connection : Connection S)
      → q.creating ≡ suc n
      → try_acquire q.pool.slots ≡ none
      → (r : PoolCalls S) × CallSteps q r
        × (r.holders ≡ length q.pool.slots ∷ length q.pool.slots ∷ q.holders)
  shared_slot q connection e busy = (
    _,
    calls_more (pushes connection e) (
        calls_more (takes (try_acquire-append q.pool.slots connection busy))
          (calls_more (marks 0 refl) calls_done)),
    refl,
  )

  deciding :
      (k : ℕ) (q : PoolCalls S)
      → try_acquire q.pool.slots ≡ none
      → ltb (length q.pool.slots) q.pool.pool_max ≡ true
      → (r : PoolCalls S) → CallSteps (record q { creating = k + q.creating }) r
      → CallSteps q r
  deciding zero q busy room r t =
      subst (λ n. CallSteps (record q { creating = n }) r) (omega arith) t
  deciding (suc k) q busy room r t = calls_more (decides busy room) (
      deciding k (record q { creating = suc q.creating }) busy room r
        (subst (λ n. CallSteps (record q { creating = n }) r) (omega arith) t))

  pushing :
      (k n : ℕ) (q : PoolCalls S) (connection : Connection S)
      → q.creating ≡ k + n
      → (r : PoolCalls S) × CallSteps q r × (length r.pool.slots ≡ length q.pool.slots + k)
  pushing zero n q connection e = (q, calls_done, omega arith)
  pushing (suc k) n q connection e =
      let (r, t, size) =
        pushing k n
          (record q {
            pool = with_slots (q.pool.slots ++ free_slot connection ∷ []) q.pool;
            creating = k + n;
            pushed = length q.pool.slots ∷ q.pushed;
          })
          connection refl in
      (
        r,
        calls_more (pushes connection (omega (arith, e))) t,
        omega (arith, size, length-append q.pool.slots (free_slot connection ∷ [])),
      )

  -- When every slot is in use and there is room for at least one more, then for every number there
  -- are steps that add that many slots, past pool_max: the calls all find room before the first of
  -- them pushes its slot.
  pub exceeds_max :
      (q : PoolCalls S) (k : ℕ) (connection : Connection S)
      → try_acquire q.pool.slots ≡ none
      → ltb (length q.pool.slots) q.pool.pool_max ≡ true
      → (r : PoolCalls S) × CallSteps q r × (length r.pool.slots ≡ length q.pool.slots + k)
  exceeds_max q k connection busy room =
      let (r, t, size) =
        pushing k q.creating (record q { creating = k + q.creating }) connection refl in
      (r, deciding k q busy room r t, size)
