-- ===== src/Database/Pool/Leases.antt =====
-- connection_pool.cpp: which slots are in use after a call.
use oink_judge.Prelude.{
  ℕ, ◌≤◌, ◌<◌, Bool, true, false, ◌≡◌, refl, ◌∙◌, ◌⊎◌, inl, inr, Option, none, some, List, [], ◌∷◌,
  ◌++◌, length, get_elem?, modify, Outcome, ok, thrown, Reply, string_eq, nat_eq, arith, ltb,
  length-append, ltb→lt, ltb→le,
}
use oink_judge.Prelude.Exec.{pure, continue, update, ◌>>◌}
use oink_judge.Database.Connection.{Libpq, Connection, sync_statements}
use oink_judge.Database.Pool.{
  PoolSlot, Pool, try_acquire, mark, reconnect, new_connection, push_slot, connect_slot,
  create_slot, take_new, take_found, take_slot, sync_found, sync_slot, finish_acquire, initialize,
  acquire,
}
use oink_judge.Database.Pool.Slots.{
  in_use_at, Takes, in_use_at-modify, in_use_at-mark, in_use_at-append, in_use_at-length,
  length-modify, Found, try_acquire-Found,
}

module _ {S : Type 0} where
  -- The slots are in use as before, and no more of them than there may be.
  abbrev pub Same : Pool S → Pool S → Type 0
  Same pool pool' =
      ((j : ℕ) → in_use_at j pool'.slots ≡ in_use_at j pool.slots)
      × (length pool'.slots ≡ length pool.slots)

  abbrev pub Fits : Pool S → Pool S → Type 0
  Fits pool pool' = (length pool'.slots ≡ length pool.slots) ⊎ (length pool'.slots ≤ pool.pool_max)

  -- What acquire did: it took a slot that was free; or it would wait, with as many slots as there
  -- may be; or it threw, and either no slot came into use or one did that nobody holds.
  abbrev pub Acquires : Pool S → Outcome (Option ℕ) → Pool S → Type 0
  Acquires pool (ok (some i)) pool' = Takes i pool.slots pool'.slots × Fits pool pool'
  Acquires pool (ok none) pool' = (pool' ≡ pool) × (pool.pool_max ≤ length pool.slots)
  Acquires pool (thrown e) pool' =
      ((j : ℕ) → in_use_at j pool'.slots ≡ in_use_at j pool.slots)
      ⊎ ((i : ℕ) × Takes i pool.slots pool'.slots)

  -- What createSlot did.
  abbrev Created : Pool S → Outcome ℕ → Pool S → Type 0
  Created pool (ok i) pool' =
      (i ≡ length pool.slots)
      × (slot : PoolSlot S) × (slot.in_use ≡ false)
      × (pool'.slots ≡ pool.slots ++ slot ∷ [])
  Created pool (thrown e) pool' = pool'.slots ≡ pool.slots

  push_slot-Created :
      (pool : Pool S) (r : Reply) (connection : Connection S)
      → Created pool (push_slot pool (r, connection)).0 (push_slot pool (r, connection)).1
  push_slot-Created pool (ok _) connection =
      (refl, record { connection = connection; in_use = false }, refl, refl)
  push_slot-Created pool (thrown e) connection = refl

  marked :
      (slots : List (PoolSlot S)) (slot : PoolSlot S)
      → slot.in_use ≡ false
      → Takes (length slots) slots (modify (slots ++ slot ∷ []) (length slots) (mark true))
  marked slots slot free = (
    in_use_at-length slots,
    (λ j.
        in_use_at-mark true (slots ++ slot ∷ []) (length slots) j
          (omega (arith, length-append slots (slot ∷ [])))
        ∙ rw (in_use_at-append slots slot j free) refl),
  )

  mark-Created :
      (pool : Pool S)
      → length pool.slots < pool.pool_max
      → (r : Outcome ℕ) (pool' : Pool S) → Created pool r pool'
      → Acquires pool
          (continue r
            (λ i. update (λ p. record p { slots = modify p.slots i (mark true) }) >> pure (some i))
            pool').0
          (continue r
            (λ i. update (λ p. record p { slots = modify p.slots i (mark true) }) >> pure (some i))
            pool').1
  mark-Created pool room (ok i) pool' (at, slot, free, grown) =
      rw (at, grown)
        (
          marked pool.slots slot free,
          inr (
              omega (
                arith,
                length-modify (pool.slots ++ slot ∷ []) (length pool.slots) (mark true),
                length-append pool.slots (slot ∷ []),
              )),
        )
  mark-Created pool room (thrown e) pool' same = inl (λ j. rw same)

module _ {S : Type 0} (libpq : Libpq S) (dial : ℕ → Outcome S) where
  connect_slot-Created :
      (pool : Pool S) (answer : Outcome S)
      → Created pool (connect_slot libpq dial answer pool).0 (connect_slot libpq dial answer pool).1
  connect_slot-Created pool (ok session) =
      push_slot-Created pool
        (sync_statements libpq pool.statement_log.actions (new_connection session)).0
        (sync_statements libpq pool.statement_log.actions (new_connection session)).1
  connect_slot-Created pool (thrown e) = refl

  create_slot-Created :
      (pool : Pool S) → Created pool (create_slot libpq dial pool).0 (create_slot libpq dial pool).1
  unfolding create_slot
  create_slot-Created pool = connect_slot-Created pool (dial (length pool.slots))

  take_new-Acquires :
      (pool : Pool S) (room : Bool)
      → ltb (length pool.slots) pool.pool_max ≡ room
      → Acquires pool (take_new libpq dial room pool).0 (take_new libpq dial room pool).1
  take_new-Acquires pool true e =
      mark-Created pool (ltb→lt _ _ e) (create_slot libpq dial pool).0
        (create_slot libpq dial pool).1 (create_slot-Created pool)
  take_new-Acquires pool false e = (refl, ltb→le _ _ e)

  take_found-Acquires :
      (pool : Pool S) (found : Option (ℕ × List (PoolSlot S)))
      → Found pool.slots found
      → Acquires pool (take_found libpq dial found pool).0 (take_found libpq dial found pool).1
  take_found-Acquires pool none f =
      take_new-Acquires pool (ltb (length pool.slots) pool.pool_max) refl
  take_found-Acquires pool (some (i, slots)) (takes, same) = (takes, inl same)

  sync_found-Same :
      (pool : Pool S) (i : ℕ) (found : Option (PoolSlot S))
      → Same pool (sync_found libpq dial i found pool).1
  sync_found-Same pool i none = ((λ j. refl), refl)
  sync_found-Same pool i (some slot) = (
    (λ j. in_use_at-modify (reconnect _) (λ _. refl) pool.slots i j),
    length-modify pool.slots i (reconnect _),
  )

  pub sync_slot-Same : (pool : Pool S) (i : ℕ) → Same pool (sync_slot libpq dial i pool).1
  unfolding sync_slot
  sync_slot-Same pool i = sync_found-Same pool i (get_elem? pool.slots i)

  Acquires-Same :
      (pool taken pool' : Pool S) (i : ℕ)
      → Acquires pool (ok (some i)) taken
      → Same taken pool'
      → (r : Reply)
      → Acquires pool
          (continue r (λ _. pure (some i)) pool').0
          (continue r (λ _. pure (some i)) pool').1
  Acquires-Same pool taken pool' i ((free, others), inl e) (same, size) (ok _) =
      ((free, (λ j. same j ∙ others j)), inl (size ∙ e))
  Acquires-Same pool taken pool' i ((free, others), inr h) (same, size) (ok _) =
      ((free, (λ j. same j ∙ others j)), inr (omega (arith, h, size)))
  Acquires-Same pool taken pool' i ((free, others), _) (same, size) (thrown e) =
      inr (i, (free, (λ j. same j ∙ others j)))

  finish-Acquires :
      (pool : Pool S) (r : Outcome (Option ℕ)) (taken : Pool S)
      → Acquires pool r taken
      → Acquires pool
          (continue r (finish_acquire libpq dial) taken).0
          (continue r (finish_acquire libpq dial) taken).1
  finish-Acquires pool (ok none) taken a = a
  finish-Acquires pool (ok (some i)) taken a =
      Acquires-Same pool taken (sync_slot libpq dial i taken).1 i a (sync_slot-Same taken i)
        (sync_slot libpq dial i taken).0
  finish-Acquires pool (thrown e) taken a = a

  -- On a pool that is initialized, and whatever the server answers: acquire takes exactly one slot
  -- that was free, and the pool has as many slots as before or no more than pool_max; or it would
  -- wait, and has changed nothing, with pool_max slots there or more; or it throws, and then the
  -- slots in use are those from before, or one slot more that nobody holds.
  pub acquire-Acquires :
      (pool : Pool S)
      → pool.initialized ≡ true
      → Acquires pool (acquire libpq dial pool).0 (acquire libpq dial pool).1
  unfolding acquire initialize take_slot
  acquire-Acquires pool ready = simp ready (
      finish-Acquires pool _ _
        (take_found-Acquires pool (try_acquire pool.slots) (try_acquire-Found pool.slots)))
