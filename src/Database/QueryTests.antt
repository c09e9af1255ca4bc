-- ===== src/Database/QueryTests.antt =====
-- A server that sends its results after two reads, and the theorems on queries at such inputs.
use oink_judge.Prelude.{
  ℕ, zero, suc, ◌<◌, String, Bool, true, false, ◌≡◌, refl, Option, none, some, List, [], ◌∷◌,
  length, map, if◌then◌else◌, ok, thrown, string_eq, ◌==◌, arith, ◌≤◌,
}
use oink_judge.Prelude.Integers.{pos}
use oink_judge.Prelude.Await.{Ends}
use oink_judge.Database.Queries.{
  flush_async, flush_loop, consume_results, consume_loop, Wire, Line, QueryParam, text_param,
  null_param, int32_param, Printing, execute_prepared, encode_params, param_to_text, read_value,
}
use oink_judge.Database.Queries.Encoding.{sent_text, encode_params-reads}
use oink_judge.Database.Queries.Answers.{Documented, answer, left_over}
use oink_judge.Database.Queries.Executions.{
  execute_prepared-Answers, execute_prepared-poisons, AllThrow,
}

-- Whether a result is no error, and its number of rows
abbrev TestResult : Type 0
TestResult = Bool × ℕ

record Server : Type 0 where
  wait : ℕ
  flying : Option (List TestResult)

abbrev reply : String → List TestResult
reply stmt = if stmt == "bad" then (false, 0) ∷ [] else (true, 0) ∷ (true, 3) ∷ (true, 1) ∷ []

abbrev positive : ℕ → Bool
positive zero = false
positive (suc n) = true

abbrev less : ℕ → ℕ
less zero = zero
less (suc n) = n

abbrev next_result : ℕ → Option (List TestResult) → Option TestResult × Server
next_result d none = (none, record { wait = d; flying = none })
next_result d (some []) = (none, record { wait = d; flying = none })
next_result d (some (r ∷ rest)) = (some r, record { wait = d; flying = some rest })

abbrev send : String → ℕ → Option (List TestResult) → Bool × Server
send stmt d none = (true, record { wait = 2; flying = some (reply stmt) })
send stmt d (some rest) = (false, record { wait = d; flying = some rest })

abbrev test_wire : Wire Server TestResult
test_wire = record {
  wait_read = λ c. record c { wait = less c.wait };
  wait_write = λ c. c;
  flush = λ c. (false, c);
  is_busy = λ c. positive c.wait;
  consume_input = λ c. (true, c);
  get_result = λ c. next_result c.wait c.flying;
  result_ok = λ r. r.0;
  ntuples = λ r. r.1;
  result_error_message = λ r. "error";
  error_message = λ c. "another command is already in progress";
  send_query_prepared = λ stmt values c. send stmt c.wait c.flying;
  send_query_params = λ sql values c. send sql c.wait c.flying;
  escape_literal = λ value c. (some value, c);
}

less-lt : (n : ℕ) → positive n ≡ true → less n < n
less-lt zero e = cc
less-lt (suc n) e = omega arith

next_result-next :
    (d : ℕ) (flying : Option (List TestResult)) (r : TestResult) (rest : List TestResult)
    → flying ≡ some (r ∷ rest)
    → ((next_result d flying).0 ≡ some r) × ((next_result d flying).1.flying ≡ some rest)
next_result-next d flying r rest e = rw e (refl, refl)

next_result-null :
    (d : ℕ) (flying : Option (List TestResult))
    → flying ≡ some []
    → ((next_result d flying).0 ≡ none) × ((next_result d flying).1.flying ≡ none)
next_result-null d flying e = rw e (refl, refl)

next_result-wait : (d : ℕ) (flying : Option (List TestResult)) → (next_result d flying).1.wait ≤ d
next_result-wait d none = omega arith
next_result-wait d (some []) = omega arith
next_result-wait d (some (r ∷ rest)) = omega arith

send-refuses :
    (stmt : String) (d : ℕ) (flying : Option (List TestResult)) (rest : List TestResult)
    → flying ≡ some rest
    → ((send stmt d flying).0 ≡ false) × ((send stmt d flying).1.flying ≡ some rest)
send-refuses stmt d flying rest e = rw e (refl, refl)

never_flushing : false ≡ true → 0 < 0
never_flushing e = cc

abbrev test_documented : Documented test_wire
test_documented = record {
  in_flight = λ c. c.flying;
  delay = λ c. c.wait;
  unsent = λ c. 0;
  reads = λ c e. refl;
  reads_keep = λ c e. refl;
  reads_end = λ c e. less-lt c.wait e;
  gets_next = λ c r rest e. next_result-next c.wait c.flying r rest e;
  gets_null = λ c e. next_result-null c.wait c.flying e;
  gets_early = λ c. next_result-wait c.wait c.flying;
  flush_keeps = λ c. refl;
  flush_delay = λ c. omega arith;
  flush_less = λ c e. never_flushing e;
  write_keeps = λ c. refl;
  write_delay = λ c. omega arith;
  refuses = λ stmt values c rest e. send-refuses stmt c.wait c.flying rest e;
}

abbrev test_printing : Printing String
test_printing = record { int_text = λ n. "7"; double_text = λ text. text }

abbrev quiet_line : Line Server
quiet_line = record { has_socket = true; conn = record { wait = 0; flying = none } }

abbrev three_params : List (QueryParam String)
three_params = text_param "s1" ∷ null_param ∷ int32_param (pos 7) ∷ []

encode_params_run :
    encode_params test_printing three_params ≡ ("s1" ∷ "7" ∷ [], some 0 ∷ none ∷ some 1 ∷ [])
unfolding encode_params param_to_text
encode_params_run = refl

encode_params-reads_example :
    let (storage, values) = encode_params test_printing three_params in
    (map (read_value storage) values ≡ map (sent_text test_printing) three_params)
    × (length storage ≤ length three_params)
encode_params-reads_example = encode_params-reads test_printing three_params

execute_prepared-Answers_example :
    Ends (execute_prepared test_wire test_printing 9 "good" three_params quiet_line) (λ r s.
      (r ≡ answer test_wire (reply "good"))
      × (s.has_socket ≡ true)
      × (s.conn.flying ≡ left_over test_wire (reply "good")))
execute_prepared-Answers_example =
    execute_prepared-Answers test_wire test_documented test_printing 9 "good" three_params
      quiet_line (reply "good") refl refl refl (omega arith) (omega arith)

abbrev two_calls : List (ℕ × String × List (QueryParam String))
two_calls = (9, "good", three_params) ∷ (9, "bad", []) ∷ []

reply_bad : answer test_wire (reply "bad") ≡ thrown "error"
unfolding answer
reply_bad = refl

execute_prepared-poisons_example :
    Ends
      (execute_prepared test_wire test_printing 9 "bad" [] quiet_line)
      (λ r s. (r ≡ thrown "error") × AllThrow test_wire test_documented test_printing two_calls s)
execute_prepared-poisons_example =
    execute_prepared-poisons test_wire test_documented test_printing 9 "bad" [] quiet_line
      (reply "bad") two_calls refl refl refl (omega arith) (omega arith) reply_bad

good_run :
    execute_prepared test_wire test_printing 9 "good" three_params quiet_line
    ≡ some (
      ok (some (true, 3)),
      record { has_socket = true; conn = record { wait = 0; flying = none } },
    )
unfolding execute_prepared encode_params param_to_text flush_async flush_loop consume_results
    consume_loop
good_run = refl
