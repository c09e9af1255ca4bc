-- ===== src/Database/Queries/Executions.antt =====
-- An execution from the command to the answer, and the one after an error.
use oink_judge.Prelude.{
  ℕ, zero, suc, ◌+◌, ◌<◌, String, Bool, true, false, ◌≡◌, refl, ◌∙◌, Option, some, List, [], ◌∷◌,
  length, ltb, Outcome, ok, thrown, Bool-cases, inl, inr, arith,
}
use oink_judge.Prelude.Await.{continue, Ends, Ends-continue, Ends-mono}
use oink_judge.Database.Queries.{
  Wire, Line, QueryParam, Printing, flush_loop, flush_async, consume_results, require, flush_turn,
  execute_prepared, values_of,
}
use oink_judge.Database.Queries.Answers.{
  Documented, answer, left_over, Ready, Answers, consume_loop-Answers,
}

module _ {C R : Type 0} (wire : Wire C R) (libpq : Documented wire) where
  flush_turn-Ready :
      (b : Bool) (fuel : ℕ) (line : Line C) (results : List R) (bound : ℕ)
      → (wire.flush line.conn).0 ≡ b
      → libpq.unsent line.conn < suc fuel
      → Ready wire libpq (some results) bound line
      → ((l : Line C)
          → libpq.unsent l.conn < fuel
          → Ready wire libpq (some results) bound l
          → Ends
              (flush_loop wire fuel l)
              (λ r s. (r ≡ ok tt) × Ready wire libpq (some results) bound s))
      → Ends
          (flush_turn wire b
            (flush_loop wire fuel)
            (record { has_socket = line.has_socket; conn = (wire.flush line.conn).1 }))
          (λ r s. (r ≡ ok tt) × Ready wire libpq (some results) bound s)
  flush_turn-Ready false fuel line results bound e k h ih = (
    refl,
    (h.0, libpq.flush_keeps line.conn ∙ h.1, omega (arith, h.2, libpq.flush_delay line.conn)),
  )
  flush_turn-Ready true fuel line results bound e k h ih =
      let flushed = (wire.flush line.conn).1 in
      ih (record { has_socket = line.has_socket; conn = wire.wait_write flushed })
        (omega (arith, libpq.flush_less line.conn e))
        (
          h.0,
          libpq.write_keeps flushed ∙ libpq.flush_keeps line.conn ∙ h.1,
          omega (arith, h.2, libpq.flush_delay line.conn, libpq.write_delay flushed),
        )

  flush_loop-Ready :
      (fuel : ℕ) (line : Line C) (results : List R) (bound : ℕ)
      → libpq.unsent line.conn < fuel
      → Ready wire libpq (some results) bound line
      → Ends
          (flush_loop wire fuel line)
          (λ r s. (r ≡ ok tt) × Ready wire libpq (some results) bound s)
  unfolding flush_loop
  flush_loop-Ready zero line results bound k h = absurd (omega arith)
  flush_loop-Ready (suc fuel) line results bound k h =
      flush_turn-Ready (wire.flush line.conn).0 fuel line results bound refl k h
        (λ l j g. flush_loop-Ready fuel l results bound j g)

  consume_results-Answers :
      (fuel : ℕ) (results : List R) (bound : ℕ) (line : Line C)
      → bound + length results + 1 < fuel
      → Ready wire libpq (some results) bound line
      → Ends (consume_results wire fuel line) (Answers wire libpq results)
  unfolding consume_results
  consume_results-Answers fuel results bound line k h = rw h.0 (
      consume_loop-Answers wire libpq fuel results bound k
        (record { has_socket = true; conn = line.conn }) (refl, h.1, h.2))

  flush_async-Ready :
      (fuel : ℕ) (line : Line C) (results : List R) (bound : ℕ)
      → libpq.unsent line.conn < fuel
      → Ready wire libpq (some results) bound line
      → Ends
          (flush_async wire fuel line)
          (λ r s. (r ≡ ok tt) × Ready wire libpq (some results) bound s)
  unfolding flush_async
  flush_async-Ready fuel line results bound k h = rw h.0 (
      flush_loop-Ready fuel (record { has_socket = true; conn = line.conn }) results bound k
        (refl, h.1, h.2))

  -- Behind PQsendQueryPrepared
  received-Answers :
      (b : Bool) (fuel : ℕ) (line : Line C) (results : List R)
      → b ≡ true
      → Ready wire libpq (some results) (libpq.delay line.conn) line
      → libpq.unsent line.conn < fuel
      → libpq.delay line.conn + length results + 1 < fuel
      → Ends
          (continue
            (require wire b line)
            (λ _. λ l. continue (flush_async wire fuel l) (λ _. consume_results wire fuel)))
          (Answers wire libpq results)
  received-Answers false fuel line results e h u k = cc
  received-Answers true fuel line results e h u k =
      Ends-continue (flush_async wire fuel line) (λ _. consume_results wire fuel)
        (Answers wire libpq results) tt (Ready wire libpq (some results) (libpq.delay line.conn))
        (flush_async-Ready fuel line results (libpq.delay line.conn) u h)
        (λ s g. consume_results-Answers fuel results (libpq.delay line.conn) s k g)

  left_over_on :
      (result : R) (rest : List R)
      → wire.result_ok result ≡ true
      → ltb 0 (wire.ntuples result) ≡ false
      → left_over wire (result ∷ rest) ≡ left_over wire rest
  unfolding left_over
  left_over_on result rest good empty = rw good (rw empty refl)

  answer-left_over :
      (results : List R) {e : String}
      → answer wire results ≡ thrown e
      → (rest : List R) × (left_over wire results ≡ some rest)
  unfolding answer left_over
  answer-left_over [] h = cc
  answer-left_over (result ∷ rest) {e} h = elim (Bool-cases (wire.result_ok result)) [
    | inl good ↦ elim (Bool-cases (ltb 0 (wire.ntuples result))) [
      | inl rows ↦ absurd (ground arith)
      | inr empty ↦
          let (r, p) = answer-left_over rest {e = e} (ground arith) in
          (r, left_over_on result rest good empty ∙ p)
    ]
    | inr bad ↦ (rest, rw bad refl)
  ]

  module _ {D : Type 0} (printing : Printing D) where
    -- The connection after PQsendQueryPrepared, and whether it took the command.
    abbrev sent : String → List (QueryParam D) → Line C → Bool × C
    sent stmt params line = wire.send_query_prepared stmt (values_of wire printing params) line.conn

    -- If the socket is bound, the connection takes the command, and the fuel exceeds the waits
    -- until it is sent and until all results have come, then executePrepared ends. It returns or
    -- throws what the results say, which is the first error or result with rows, and leaves
    -- nothing in flight, unless it threw: then the results behind the error are left.
    pub execute_prepared-Answers :
        (fuel : ℕ) (stmt : String) (params : List (QueryParam D)) (line : Line C) (results : List R)
        → line.has_socket ≡ true
        → (sent stmt params line).0 ≡ true
        → libpq.in_flight (sent stmt params line).1 ≡ some results
        → libpq.unsent (sent stmt params line).1 < fuel
        → libpq.delay (sent stmt params line).1 + length results + 1 < fuel
        → Ends (execute_prepared wire printing fuel stmt params line) (λ r s.
          (r ≡ answer wire results)
          × (s.has_socket ≡ true)
          × (libpq.in_flight s.conn ≡ left_over wire results))
    unfolding execute_prepared
    execute_prepared-Answers fuel stmt params line results socket accepted flying u k =
        received-Answers (sent stmt params line).0 fuel
          (record { has_socket = line.has_socket; conn = (sent stmt params line).1 }) results
          accepted (socket, flying, omega arith) u k

    -- What an execution throws, and that the results that nobody read stay where they are.
    abbrev pub IsStuck : List R → Outcome (Option R) → Line C → Type 0
    IsStuck rest r line = ((e : String) × (r ≡ thrown e)) × (libpq.in_flight line.conn ≡ some rest)

    refused-IsStuck :
        (b : Bool) (fuel : ℕ) (line : Line C) (rest : List R)
        → b ≡ false
        → libpq.in_flight line.conn ≡ some rest
        → Ends
            (continue
              (require wire b line)
              (λ _. λ l. continue (flush_async wire fuel l) (λ _. consume_results wire fuel)))
            (IsStuck rest)
    refused-IsStuck true fuel line rest e h = cc
    refused-IsStuck false fuel line rest e h = ((wire.error_message line.conn, refl), h)

    -- An execution on a connection with results in flight
    execute_prepared-IsStuck :
        (fuel : ℕ) (stmt : String) (params : List (QueryParam D)) (line : Line C) (rest : List R)
        → libpq.in_flight line.conn ≡ some rest
        → Ends (execute_prepared wire printing fuel stmt params line) (IsStuck rest)
    unfolding execute_prepared
    execute_prepared-IsStuck fuel stmt params line rest h =
        let r = libpq.refuses stmt (values_of wire printing params) line.conn rest h in
        refused-IsStuck (sent stmt params line).0 fuel
          (record { has_socket = line.has_socket; conn = (sent stmt params line).1 }) rest r.0 r.1

    -- One execution after another, each given its fuel, its statement and its parameters; what each
    -- throws is caught.
    abbrev pub AllThrow : List (ℕ × String × List (QueryParam D)) → Line C → Type 0
    AllThrow [] line = Unit
    AllThrow ((fuel, stmt, params) ∷ calls) line =
        Ends (execute_prepared wire printing fuel stmt params line)
          (λ r s. ((e : String) × (r ≡ thrown e)) × AllThrow calls s)

    AllThrow-in_flight :
        (calls : List (ℕ × String × List (QueryParam D))) (rest : List R) (line : Line C)
        → libpq.in_flight line.conn ≡ some rest
        → AllThrow calls line
    AllThrow-in_flight [] rest line h = tt
    AllThrow-in_flight ((fuel, stmt, params) ∷ calls) rest line h =
        Ends-mono (execute_prepared wire printing fuel stmt params line) (IsStuck rest)
          (λ r s. ((e : String) × (r ≡ thrown e)) × AllThrow calls s)
          (λ r s g. (g.0, AllThrow-in_flight calls rest s g.1))
          (execute_prepared-IsStuck fuel stmt params line rest h)

    -- If the socket is bound, the connection takes the command, the fuel exceeds the waits until
    -- it is sent and all results have come, and the server answers with an error, then
    -- executePrepared throws that error, and every later execution on this connection throws,
    -- whatever its statement, parameters and fuel: the null behind the error is not read, so libpq
    -- takes no other command.
    pub execute_prepared-poisons :
        (fuel : ℕ) (stmt : String) (params : List (QueryParam D)) (line : Line C) (results : List R)
        {e : String} (calls : List (ℕ × String × List (QueryParam D)))
        → line.has_socket ≡ true
        → (sent stmt params line).0 ≡ true
        → libpq.in_flight (sent stmt params line).1 ≡ some results
        → libpq.unsent (sent stmt params line).1 < fuel
        → libpq.delay (sent stmt params line).1 + length results + 1 < fuel
        → answer wire results ≡ thrown e
        → Ends
            (execute_prepared wire printing fuel stmt params line)
            (λ r s. (r ≡ thrown e) × AllThrow calls s)
    execute_prepared-poisons fuel stmt params line results calls socket accepted flying u k bad =
        let (rest, left) = answer-left_over results bad in
        Ends-mono (execute_prepared wire printing fuel stmt params line) _ _
          (λ r s g. (g.0 ∙ bad, AllThrow-in_flight calls rest s (g.2 ∙ left)))
          (execute_prepared-Answers fuel stmt params line results socket accepted flying u k)
