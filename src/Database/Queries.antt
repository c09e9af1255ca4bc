-- ===== src/Database/Queries.antt =====
-- modules/database/src/libpq_connection.cpp: queries with their parameters, flushAsync,
-- consumeResults and the executions, while they hold the execution queue.
pub mod Encoding
pub mod Answers
pub mod Executions
use oink_judge.Prelude.{
  ℕ, zero, suc, String, Bool, true, false, Option, none, some, List, [], ◌∷◌, ◌++◌, map, length,
  if◌then◌else◌, ltb,
}
use oink_judge.Prelude.Texts.{c_string}
use oink_judge.Prelude.Integers.{ℤ}
use oink_judge.Prelude.Await.{Await, pure, raise, waiting, ◌>>=◌, ◌>>◌}

-- QueryParam, over a type of doubles
pub data QueryParam (D : Type 0) : Type 0 where
  null_param : QueryParam D
  bool_param : Bool → QueryParam D
  int32_param int64_param : ℤ → QueryParam D
  double_param : D → QueryParam D
  text_param : String → QueryParam D

-- std::to_string of an integer, and `<<` of a double
pub record Printing (D : Type 0) : Type 0 where
  pub int_text : ℤ → String
  pub double_text : D → String

module _ {D : Type 0} (printing : Printing D) where
  unfoldable pub param_to_text : QueryParam D → Option String
  param_to_text null_param = none
  param_to_text (bool_param value) = some (if value then "true" else "false")
  param_to_text (int32_param value) = some (printing.int_text value)
  param_to_text (int64_param value) = some (printing.int_text value)
  param_to_text (double_param value) = some (printing.double_text value)
  param_to_text (text_param value) = some value

  -- The loop of encodeParams. A pointer of `values` into `storage` is the position of its text.
  abbrev pub encode_text :
      Option String → List String × List (Option ℕ) → List String × List (Option ℕ)
  encode_text (some text) (storage, values) =
      (storage ++ text ∷ [], values ++ some (length storage) ∷ [])
  encode_text none (storage, values) = (storage, values ++ none ∷ [])

  unfoldable pub encode_rest :
      List (QueryParam D) → List String × List (Option ℕ) → List String × List (Option ℕ)
  encode_rest [] encoded = encoded
  encode_rest (param ∷ params) encoded =
      encode_rest params (encode_text (param_to_text param) encoded)

  unfoldable pub encode_params : List (QueryParam D) → List String × List (Option ℕ)
  unfolding encode_rest
  encode_params params = encode_rest params ([], [])

-- What the pointers give when libpq reads through them, which are of `c_str()` and come without a
-- length.
unfoldable pub text_at : List String → ℕ → Option String
unfolding c_string
text_at [] i = none
text_at (text ∷ storage) zero = some (c_string text)
text_at (text ∷ storage) (suc i) = text_at storage i

abbrev pub read_value : List String → Option ℕ → Option String
read_value storage none = none
read_value storage (some i) = text_at storage i

-- libpq: a `PGconn*` with what it points to is a `C`, a `PGresult*` that is not null an `R`. The
-- flag of a call is whether it returned 1; `wait_read` and `wait_write` are asio's waits for the
-- socket.
pub record Wire (C R : Type 0) : Type 0 where
  pub wait_read : C → C
  pub wait_write : C → C
  pub flush : C → Bool × C
  pub is_busy : C → Bool
  pub consume_input : C → Bool × C
  pub get_result : C → Option R × C
  pub result_ok : R → Bool
  pub ntuples : R → ℕ
  pub result_error_message : R → String
  pub error_message : C → String
  pub send_query_prepared : String → List (Option String) → C → Bool × C
  pub send_query_params : String → List (Option String) → C → Bool × C
  pub escape_literal : String → C → Option String × C

-- LibpqConnection, where a query uses it: whether `socket_` has a value, and `conn_`.
pub record Line (C : Type 0) : Type 0 where
  pub has_socket : Bool
  pub conn : C

module _ {C R : Type 0} (wire : Wire C R) where
  -- A call of libpq on `conn_`
  abbrev pub call : {A : Type 0} → (C → A × C) → Await (Line C) A
  call f line = let (a, conn) = f line.conn in pure a (record line { conn = conn })

  abbrev pub wait : (C → C) → Await (Line C) Unit
  wait f line = pure tt (record line { conn = f line.conn })

  -- `throw std::runtime_error(PQerrorMessage(conn_))`
  abbrev pub raise_error : {A : Type 0} → Await (Line C) A
  raise_error line = raise (wire.error_message line.conn) line

  abbrev pub require : Bool → Await (Line C) Unit
  require true = pure tt
  require false = raise_error

  abbrev pub require_socket : Await (Line C) Unit
  require_socket line = if line.has_socket then pure tt line else raise "socket is not bound" line

  -- The loop of flushAsync
  abbrev pub flush_turn : Bool → Await (Line C) Unit → Await (Line C) Unit
  flush_turn true rest = do wait wire.wait_write; rest
  flush_turn false rest = pure tt

  unfoldable pub flush_loop : ℕ → Await (Line C) Unit
  flush_loop zero = waiting
  flush_loop (suc fuel) = do more ← call wire.flush; flush_turn more (flush_loop fuel)

  unfoldable pub flush_async : ℕ → Await (Line C) Unit
  flush_async fuel = do require_socket; flush_loop fuel

  -- `while (PQisBusy(conn_) != 0)` of consumeResults
  abbrev pub busy_turn : Bool → Await (Line C) Unit → Await (Line C) Unit
  busy_turn true rest = do wait wire.wait_read; read ← call wire.consume_input; require read; rest
  busy_turn false rest = pure tt

  unfoldable pub wait_while_busy : ℕ → Await (Line C) Unit
  wait_while_busy zero = waiting
  wait_while_busy (suc fuel) = do
    busy ← λ line. pure (wire.is_busy line.conn) line
    busy_turn busy (wait_while_busy fuel)

  -- `while (PQgetResult(conn_) != nullptr)`
  abbrev pub drain_turn : Option R → Await (Line C) Unit → Await (Line C) Unit
  drain_turn (some result) rest = rest
  drain_turn none rest = pure tt

  unfoldable pub drain : ℕ → Await (Line C) Unit
  drain zero = waiting
  drain (suc fuel) = do result ← call wire.get_result; drain_turn result (drain fuel)

  -- The branches of the loop of consumeResults on a result: on `PQntuples(result) > 0`, on its
  -- status, and on whether there is one. A QueryResult that holds no PGresult is `none`.
  abbrev pub take_rows :
      Bool → R → Await (Line C) Unit → Await (Line C) (Option R) → Await (Line C) (Option R)
  take_rows true result emptied rest = do emptied; pure (some result)
  take_rows false result emptied rest = rest

  abbrev pub take_status :
      Bool → R → Await (Line C) Unit → Await (Line C) (Option R) → Await (Line C) (Option R)
  take_status true result emptied rest = take_rows (ltb 0 (wire.ntuples result)) result emptied rest
  take_status false result emptied rest = raise (wire.result_error_message result)

  abbrev pub take_result :
      Option R → Await (Line C) Unit → Await (Line C) (Option R) → Await (Line C) (Option R)
  take_result none emptied rest = pure none
  take_result (some result) emptied rest = take_status (wire.result_ok result) result emptied rest

  unfoldable pub consume_loop : ℕ → Await (Line C) (Option R)
  unfolding wait_while_busy drain
  consume_loop zero = waiting
  consume_loop (suc fuel) = do
    wait_while_busy fuel
    result ← call wire.get_result
    take_result result (drain fuel) (consume_loop fuel)

  unfoldable pub consume_results : ℕ → Await (Line C) (Option R)
  consume_results fuel = do require_socket; consume_loop fuel

  module _ {D : Type 0} (printing : Printing D) where
    abbrev pub values_of : List (QueryParam D) → List (Option String)
    values_of params =
        let (storage, values) = encode_params printing params in map (read_value storage) values

    unfoldable pub execute_prepared : ℕ → String → List (QueryParam D) → Await (Line C) (Option R)
    execute_prepared fuel stmt_name params = do
      sent ← call (wire.send_query_prepared stmt_name (values_of params))
      require sent
      flush_async fuel
      consume_results fuel

    unfoldable pub execute_raw_sql : ℕ → String → List (QueryParam D) → Await (Line C) (Option R)
    execute_raw_sql fuel sql params = do
      sent ← call (wire.send_query_params sql (values_of params))
      require sent
      flush_async fuel
      consume_results fuel

  abbrev pub take_escaped : Option String → Await (Line C) String
  take_escaped none = raise_error
  take_escaped (some text) = pure text

  unfoldable pub quote_literal : String → Await (Line C) String
  quote_literal value = do escaped ← call (wire.escape_literal value); take_escaped escaped
