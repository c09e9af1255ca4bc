-- ===== src/Database/Queries/Answers.antt =====
-- What an execution returns, and in what state it leaves the connection.
use oink_judge.Prelude.{
  ℕ, zero, suc, ◌+◌, ◌≤◌, ◌<◌, String, Bool, true, false, ◌≡◌, refl, sym, ◌∙◌, Option, none, some,
  List, [], ◌∷◌, length, if◌then◌else◌, ltb, Outcome, ok, thrown, arith,
}
use oink_judge.Prelude.Await.{pure, continue, Ends, Ends-continue, Ends-mono}
use oink_judge.Database.Queries.{
  Wire, Line, call, wait_while_busy, busy_turn, drain, consume_loop, take_rows, take_status,
  take_result,
}

-- How libpq's documentation describes a connection that stays up: `in_flight` is `none` when it is
-- idle, else the results that are still to come, behind which comes a null. `delay` bounds the
-- reads until the server has sent all of them, and `unsent` the writes until it has the command.
pub record Documented {C R : Type 0} (wire : Wire C R) : Type 0 where
  pub in_flight : C → Option (List R)
  pub delay : C → ℕ
  pub unsent : C → ℕ
  -- PQisBusy and PQconsumeInput
  pub reads : (c : C) → wire.is_busy c ≡ true → (wire.consume_input (wire.wait_read c)).0 ≡ true
  pub reads_keep :
      (c : C)
      → wire.is_busy c ≡ true
      → in_flight (wire.consume_input (wire.wait_read c)).1 ≡ in_flight c
  pub reads_end :
      (c : C) → wire.is_busy c ≡ true → delay (wire.consume_input (wire.wait_read c)).1 < delay c
  -- PQgetResult
  pub gets_next :
      (c : C) (result : R) (rest : List R)
      → in_flight c ≡ some (result ∷ rest)
      → ((wire.get_result c).0 ≡ some result) × (in_flight (wire.get_result c).1 ≡ some rest)
  pub gets_null :
      (c : C)
      → in_flight c ≡ some []
      → ((wire.get_result c).0 ≡ none) × (in_flight (wire.get_result c).1 ≡ none)
  pub gets_early : (c : C) → delay (wire.get_result c).1 ≤ delay c
  -- PQflush
  pub flush_keeps : (c : C) → in_flight (wire.flush c).1 ≡ in_flight c
  pub flush_delay : (c : C) → delay (wire.flush c).1 ≤ delay c
  pub flush_less :
      (c : C) → (wire.flush c).0 ≡ true → unsent (wire.wait_write (wire.flush c).1) < unsent c
  pub write_keeps : (c : C) → in_flight (wire.wait_write c) ≡ in_flight c
  pub write_delay : (c : C) → delay (wire.wait_write c) ≤ delay c
  -- PQsendQueryPrepared: only an idle connection takes a command
  pub refuses :
      (stmt : String) (values : List (Option String)) (c : C) (rest : List R)
      → in_flight c ≡ some rest
      → ((wire.send_query_prepared stmt values c).0 ≡ false)
        × (in_flight (wire.send_query_prepared stmt values c).1 ≡ some rest)

module _ {C R : Type 0} (wire : Wire C R) where
  -- The answer to a command, from the results that come for it: the first error or result with
  -- rows.
  unfoldable pub answer : List R → Outcome (Option R)
  answer [] = ok none
  answer (result ∷ rest) =
      if wire.result_ok result
      then (if ltb 0 (wire.ntuples result) then ok (some result) else answer rest)
      else thrown (wire.result_error_message result)

  -- What is in flight after it: behind an error, the results that nobody reads.
  unfoldable pub left_over : List R → Option (List R)
  left_over [] = none
  left_over (result ∷ rest) =
      if wire.result_ok result
      then (if ltb 0 (wire.ntuples result) then none else left_over rest)
      else some rest

  module _ (libpq : Documented wire) where
    -- The line is in the state behind a wait.
    abbrev pub Ready : Option (List R) → ℕ → Line C → Type 0
    Ready flying bound line =
        (line.has_socket ≡ true)
        × (libpq.in_flight line.conn ≡ flying)
        × (libpq.delay line.conn ≤ bound)

    busy_turn-Ready :
        (b : Bool) (fuel : ℕ) (line : Line C) (flying : Option (List R)) (bound : ℕ)
        → wire.is_busy line.conn ≡ b
        → Ready flying bound line
        → libpq.delay line.conn < suc fuel
        → ((l : Line C)
            → Ready flying bound l
            → libpq.delay l.conn < fuel
            → Ends (wait_while_busy wire fuel l) (λ r s. (r ≡ ok tt) × Ready flying bound s))
        → Ends
            (busy_turn wire b (wait_while_busy wire fuel) line)
            (λ r s. (r ≡ ok tt) × Ready flying bound s)
    busy_turn-Ready false fuel line flying bound e h k ih = (refl, h)
    busy_turn-Ready true fuel line flying bound e h k ih = rw (libpq.reads line.conn e) (
        ih
          (record {
            has_socket = line.has_socket;
            conn = (wire.consume_input (wire.wait_read line.conn)).1;
          })
          (h.0, libpq.reads_keep line.conn e ∙ h.1, omega (arith, h.2, libpq.reads_end line.conn e))
          (omega (arith, libpq.reads_end line.conn e, k)))

    wait_while_busy-Ready :
        (fuel : ℕ) (line : Line C) (flying : Option (List R)) (bound : ℕ)
        → Ready flying bound line
        → libpq.delay line.conn < fuel
        → Ends (wait_while_busy wire fuel line) (λ r s. (r ≡ ok tt) × Ready flying bound s)
    unfolding wait_while_busy
    wait_while_busy-Ready zero line flying bound h k = absurd (omega arith)
    wait_while_busy-Ready (suc fuel) line flying bound h k =
        busy_turn-Ready (wire.is_busy line.conn) fuel line flying bound refl h k
          (λ l g j. wait_while_busy-Ready fuel l flying bound g j)

    drain-idle :
        (fuel : ℕ) (line : Line C) (rest : List R) (bound : ℕ)
        → Ready (some rest) bound line
        → length rest < fuel
        → Ends (drain wire fuel line) (λ r s. (r ≡ ok tt) × Ready none bound s)
    unfolding drain
    drain-idle zero line rest bound h k = absurd (omega arith)
    drain-idle (suc fuel) line [] bound h k =
        let g = libpq.gets_null line.conn h.1 in
        rw g.0 (refl, (h.0, g.1, omega (arith, h.2, libpq.gets_early line.conn)))
    drain-idle (suc fuel) line (result ∷ rest) bound h k =
        let g = libpq.gets_next line.conn result rest h.1 in
        rw g.0 (
          drain-idle fuel
            (record { has_socket = line.has_socket; conn = (wire.get_result line.conn).1 }) rest
            bound (h.0, g.1, omega (arith, h.2, libpq.gets_early line.conn)) (omega arith))

    -- The call gives the answer, and leaves in flight what is left over.
    abbrev pub Answers : List R → Outcome (Option R) → Line C → Type 0
    Answers results r line =
        (r ≡ answer results)
        × (line.has_socket ≡ true)
        × (libpq.in_flight line.conn ≡ left_over results)

    abbrev pub Consumes : ℕ → List R → ℕ → Type 0
    Consumes fuel results bound =
        (line : Line C)
        → Ready (some results) bound line
        → Ends (consume_loop wire fuel line) (Answers results)

    take_rows-Answers :
        (b : Bool) (fuel : ℕ) (result : R) (rest : List R) (bound : ℕ) (line : Line C)
        → wire.result_ok result ≡ true
        → ltb 0 (wire.ntuples result) ≡ b
        → length rest < fuel
        → Consumes fuel rest bound
        → Ready (some rest) bound line
        → Ends
            (take_rows wire b result (drain wire fuel) (consume_loop wire fuel) line)
            (Answers (result ∷ rest))
    unfolding answer left_over
    take_rows-Answers true fuel result rest bound line e n k ih h =
        Ends-continue (drain wire fuel line) (λ _. pure (some result)) (Answers (result ∷ rest)) tt
          (Ready none bound) (drain-idle fuel line rest bound h k)
          (λ s g. (rw e (rw n refl), g.0, g.1 ∙ rw e (rw n refl)))
    take_rows-Answers false fuel result rest bound line e n k ih h =
        let same : answer (result ∷ rest) ≡ answer rest = rw e (rw n refl) in
        let left : left_over (result ∷ rest) ≡ left_over rest = rw e (rw n refl) in
        Ends-mono (consume_loop wire fuel line) (Answers rest) (Answers (result ∷ rest))
          (λ r s g. (g.0 ∙ sym same, g.1, g.2 ∙ sym left)) (ih line h)

    take_status-Answers :
        (b : Bool) (fuel : ℕ) (result : R) (rest : List R) (bound : ℕ) (line : Line C)
        → wire.result_ok result ≡ b
        → length rest < fuel
        → Consumes fuel rest bound
        → Ready (some rest) bound line
        → Ends
            (take_status wire b result (drain wire fuel) (consume_loop wire fuel) line)
            (Answers (result ∷ rest))
    unfolding answer left_over
    take_status-Answers true fuel result rest bound line e k ih h =
        take_rows-Answers (ltb 0 (wire.ntuples result)) fuel result rest bound line e refl k ih h
    take_status-Answers false fuel result rest bound line e k ih h =
        (rw e refl, h.0, h.1 ∙ rw e refl)

    -- One turn of the loop, behind the wait
    turn-Answers :
        (fuel : ℕ) (results : List R) (bound : ℕ) (line : Line C)
        → length results ≤ fuel
        → ((rest : List R) → length rest < length results → Consumes fuel rest bound)
        → Ready (some results) bound line
        → Ends
            (continue
              (call wire wire.get_result line)
              (λ r. take_result wire r (drain wire fuel) (consume_loop wire fuel)))
            (Answers results)
    unfolding answer left_over
    turn-Answers fuel [] bound line k ih h =
        let g = libpq.gets_null line.conn h.1 in rw g.0 (refl, h.0, g.1)
    turn-Answers fuel (result ∷ rest) bound line k ih h =
        let g = libpq.gets_next line.conn result rest h.1 in
        rw g.0 (
          take_status-Answers (wire.result_ok result) fuel result rest bound
            (record { has_socket = line.has_socket; conn = (wire.get_result line.conn).1 }) refl
            (omega arith) (ih rest (omega arith))
            (h.0, g.1, omega (arith, h.2, libpq.gets_early line.conn)))

    pub consume_loop-Answers :
        (fuel : ℕ) (results : List R) (bound : ℕ)
        → bound + length results + 1 < fuel
        → Consumes fuel results bound
    unfolding consume_loop
    consume_loop-Answers zero results bound k line h = absurd (omega arith)
    consume_loop-Answers (suc fuel) results bound k line h =
        Ends-continue (wait_while_busy wire fuel line) _ (Answers results) tt
          (Ready (some results) bound)
          (wait_while_busy-Ready fuel line (some results) bound h (omega (arith, h.2)))
          (λ s g.
            turn-Answers fuel results bound s (omega arith)
              (λ rest less. consume_loop-Answers fuel rest bound (omega arith)) g)
