-- ===== src/Database/ConnectTests.antt =====
-- A server that answers at the third poll.
use oink_judge.Prelude.{
  some_inj, ℕ, zero, suc, ◌+◌, ◌<◌, true, false, ◌≡◌, ◌≢◌, refl, none, some, List, [], ◌∷◌, All,
  ◌==◌, nat_eq, arith,
}
use oink_judge.Prelude.Await.{Ends}
use oink_judge.Database.Connecting.{
  Postgres, Descriptors, Link, Polling, polling_ok, polling_failed, polling_reading, connect_async,
}
use oink_judge.Database.Connecting.Bound.{GivesNew}
use oink_judge.Database.Connecting.Connected.{Answering, Connected, connect_async-Connected}

abbrev status_at : ℕ → Polling
status_at zero = polling_ok
status_at (suc n) = polling_reading

abbrev one_less : ℕ → ℕ
one_less zero = zero
one_less (suc n) = n

-- A connection is the number of polls that are left.
abbrev slow_server : Postgres ℕ
slow_server = record {
  null = 0;
  is_null = λ c. false;
  connect_start = λ conninfo. 2;
  set_nonblocking = λ c. c;
  connect_poll = λ c. (status_at c, c);
  is_bad = λ c. false;
  is_good = λ c. true;
  socket_of = λ c. some 7;
  error_message = λ c. "down";
  wait = λ status c. one_less c;
}

answers_after :
    (c : ℕ) (status : Polling)
    → status_at c ≡ status
    → status ≢ polling_ok
    → status ≢ polling_failed
    → one_less c < c
answers_after zero status e ok_not failed_not = absurd (ok_not (cc e))
answers_after (suc n) status e ok_not failed_not = omega arith

abbrev slow_answering : Answering slow_server
slow_answering = record { polls_left = λ c. c; polls_less = answers_after }

abbrev above : List ℕ → ℕ
above [] = 10
above (fd ∷ fds) = fd + above fds + 1

abbrev plain_descriptors : Descriptors
plain_descriptors = record {
  dup = λ fd fds. some (above fds);
  assign_ok = λ fd. true;
  construct_ok = λ fd. true;
}

above-new : (bound : ℕ) (fds : List ℕ) → above fds < bound + 1 → All (λ f. (bound == f) ≡ false) fds
above-new bound [] h = tt
above-new bound (fd ∷ fds) h = (ground arith, above-new bound fds (omega arith))

plain-GivesNew : GivesNew plain_descriptors
plain-GivesNew fd d fds e = above-new d fds (omega (arith, some_inj e))

abbrev fresh_link : Link ℕ
fresh_link = record {
  conn = 0;
  conninfo = "";
  statement_cursor = 4;
  bound_libpq_fd = none;
  socket = none;
  open_fds = [];
}

connect_async-Connected_example :
    Ends
      (connect_async plain_descriptors slow_server 5 "host=db" fresh_link)
      (Connected plain_descriptors slow_server plain-GivesNew (λ d. refl) slow_answering)
connect_async-Connected_example =
    connect_async-Connected plain_descriptors slow_server plain-GivesNew (λ d. refl) slow_answering
      5 "host=db" fresh_link refl (omega arith)
