-- ===== src/Database/Pool/Release.antt =====
-- connection_pool.cpp: slots that are given back, and one that is not.
use mathlib.Core.Path.{subst, ap, ◌∙◌}
use mathlib.Core.Bool.{false≢true}
use oink_judge.Prelude.{
  ℕ, zero, suc, ◌<◌, String, true, false, ◌≡◌, refl, ◌∙◌, Option, none, some, List, [], ◌∷◌, length,
  get_elem?, modify, Outcome, ok, thrown, Returns, string_eq, nat_eq, arith,
}
use oink_judge.Database.Connection.{Libpq}
use oink_judge.Database.Pool.{
  take_found, PoolSlot, Pool, try_acquire, mark, take_slot, sync_slot, initialize, acquire,
  release_slot,
}
use oink_judge.Database.Pool.Slots.{in_use_at, Takes, in_use_at-mark, Found, try_acquire-Found}
use oink_judge.Database.Pool.Leases.{Acquires, acquire-Acquires, sync_slot-Same}

get_elem?-bound :
    {A : Type 0} (xs : List A) (i : ℕ) → i < length xs → (x : A) × (get_elem? xs i ≡ some x)
get_elem?-bound [] i h = absurd (omega (arith, h))
get_elem?-bound (x ∷ xs) zero h = (x, refl)
get_elem?-bound (x ∷ xs) (suc i) h = get_elem?-bound xs i (omega (arith, h))

-- A slot that is in use is there.
in_use-bound :
    {S : Type 0} (slots : List (PoolSlot S)) (i : ℕ) → in_use_at i slots ≡ true → i < length slots
in_use-bound [] i e = absurd (false≢true e)
in_use-bound (slot ∷ slots) zero e = omega arith
in_use-bound (slot ∷ slots) (suc i) e = omega (arith, in_use-bound slots i e)

release_slot-eq :
    {S : Type 0} (i : ℕ) (pool : Pool S)
    → i < length pool.slots
    → release_slot i pool ≡ (ok tt, record pool { slots = modify pool.slots i (mark false) })
unfolding release_slot
release_slot-eq i pool h = let (slot, e) = get_elem?-bound pool.slots i h in ground (arith, e)

module _ {S : Type 0} where
  Takes-release :
      (i : ℕ) (pool pool' : Pool S)
      → Takes i pool.slots pool'.slots
      → Returns
          (release_slot i pool').0
          (λ _. (j : ℕ) → in_use_at j (release_slot i pool').1.slots ≡ in_use_at j pool.slots)
  Takes-release i pool pool' (free, others) =
      let h = in_use-bound pool'.slots i (ground (arith, others i)) in
      rw (release_slot-eq i pool' h)
        (λ j. in_use_at-mark false pool'.slots i j h ∙ ground (arith, others j))

  took :
      (pool : Pool S) (i : ℕ) (r : Outcome (Option ℕ)) (pool' : Pool S)
      → Acquires pool r pool'
      → r ≡ ok (some i)
      → Takes i pool.slots pool'.slots
  took pool i (ok none) pool' a e = cc
  took pool i (ok (some k)) pool' (takes, _) e =
      subst (λ n. Takes n pool.slots pool'.slots) (index_inj e) takes
    where
      index_inj : ok (some k) ≡ ok (some i) → k ≡ i
      index_inj e = cc
  took pool i (thrown _) pool' a e = cc

  -- When acquire on an initialized pool returns a slot, to release the slot returns, and the slots
  -- in use are those from before.
  pub release_slot-acquire :
      (libpq : Libpq S) (dial : ℕ → Outcome S) (pool : Pool S) (i : ℕ)
      → pool.initialized ≡ true
      → (acquire libpq dial pool).0 ≡ ok (some i)
      → Returns (release_slot i (acquire libpq dial pool).1).0 (λ _.
        (j : ℕ)
        → in_use_at j (release_slot i (acquire libpq dial pool).1).1.slots ≡ in_use_at j pool.slots)
  release_slot-acquire libpq dial pool i ready e =
      Takes-release i pool (acquire libpq dial pool).1 (
        took pool i (acquire libpq dial pool).0 (acquire libpq dial pool).1
          (acquire-Acquires libpq dial pool ready) e)

module _ {S : Type 0} (libpq : Libpq S) (dial : ℕ → Outcome S) (pool : Pool S) where
  initialize-ready : pool.initialized ≡ true → initialize libpq dial pool ≡ (ok tt, pool)
  unfolding initialize
  initialize-ready ready = ground arith

  abbrev pub with_slots : List (PoolSlot S) → Pool S
  with_slots slots = record pool { slots = slots }

  take_slot-some :
      (i : ℕ) (slots : List (PoolSlot S))
      → try_acquire pool.slots ≡ some (i, slots)
      → take_slot libpq dial pool ≡ (ok (some i), with_slots slots)
  unfolding take_slot
  take_slot-some i slots found = ap (λ r. take_found libpq dial r pool) found

  -- When, on an initialized pool, the statements of the free slot that acquire has found cannot be
  -- synchronised, acquire throws and leaves the slot in use.
  pub acquire-leaks :
      (i : ℕ) (slots : List (PoolSlot S)) (e : String)
      → pool.initialized ≡ true
      → try_acquire pool.slots ≡ some (i, slots)
      → (sync_slot libpq dial i (with_slots slots)).0 ≡ thrown e
      → ((acquire libpq dial pool).0 ≡ thrown e)
        × (in_use_at i (acquire libpq dial pool).1.slots ≡ true)
  unfolding acquire
  acquire-leaks i slots e ready found fails =
      let ((_, others), _) = subst (Found pool.slots) found (try_acquire-Found pool.slots) in
      let (same, _) = sync_slot-Same libpq dial (with_slots slots) i in
      rw (initialize-ready ready, take_slot-some i slots found, fails)
        (refl, same i ∙ ground (arith, others i))
