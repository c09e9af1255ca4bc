-- ===== src/Database/Connecting/Connected.antt =====
-- connectAsync ends, and leaves a connection on a socket of its own.
use oink_judge.Prelude.{
  ℕ, zero, suc, ◌<◌, String, Bool, true, false, ◌≡◌, ◌≢◌, refl, ap, ◌∙◌, Option, none, some, [],
  Reply, ok, arith,
}
use oink_judge.Prelude.Await.{Ends, Ends-bind, continue}
use oink_judge.Database.Connecting.{
  Postgres, Descriptors, Link, Polling, polling_ok, polling_failed, polling_reading,
  polling_writing, polling_active, close_fd, close_dup_fd, close_socket, clear_socket,
  rebind_socket, wait_on, wait_for_polling, poll_turn, poll_loop, throw_if_bad, finish_connecting,
  start_connecting, connect_async, reset_cursor,
}
use oink_judge.Database.Connecting.Bound.{
  owned_by, GivesNew, Constructs, IsKept, IsAttached, IsGood, Rebound, rebind_socket-Rebound,
}

-- The server answers: each status that asks to wait brings the end of the polling nearer.
pub record Answering {C : Type 0} (pq : Postgres C) : Type 0 where
  pub polls_left : C → ℕ
  pub polls_less :
      (c : C) (status : Polling)
      → (pq.connect_poll c).0 ≡ status
      → status ≢ polling_ok
      → status ≢ polling_failed
      → polls_left (pq.wait status (pq.connect_poll c).1) < polls_left c

module _ {C : Type 0} (os : Descriptors) (pq : Postgres C) (gives_new : GivesNew os)
    (constructs : Constructs os) (answering : Answering pq) where
  abbrev Polled : Reply → Link C → Type 0
  Polled r link = IsKept os pq link × (r ≡ ok tt → IsGood os pq link)

  abbrev Polls : ℕ → Type 0
  Polls fuel =
      (link : Link C)
      → IsGood os pq link
      → answering.polls_left link.conn < fuel
      → Ends (poll_loop os pq fuel link) Polled

  attached-IsGood : (link : Link C) → IsKept os pq link → IsAttached os pq link → IsGood os pq link
  attached-IsGood link k a = (k, λ e. cc (a.0.1, e))

  wait_on-Polled :
      (socket : Option (Option ℕ)) (status : Polling) (fuel : ℕ) (link : Link C) {d : ℕ}
      → socket ≡ some (some d)
      → IsGood os pq link
      → answering.polls_left (pq.wait status link.conn) < fuel
      → Polls fuel
      → Ends (continue (wait_on os pq socket status link) (λ _. poll_loop os pq fuel)) Polled
  wait_on-Polled none status fuel link e g k ih = cc
  wait_on-Polled (some handle) status fuel link e g k ih =
      ih (record link { conn = pq.wait status link.conn }) g k

  wait_turn-Polled :
      (status : Polling) (fuel : ℕ) (link : Link C)
      → IsGood os pq link
      → answering.polls_left (pq.wait status link.conn) < fuel
      → Polls fuel
      → Ends
          (continue
            (rebind_socket os pq link)
            (λ _. λ l. continue (wait_for_polling os pq status l) (λ _. poll_loop os pq fuel)))
          Polled
  unfolding wait_for_polling
  wait_turn-Polled status fuel link g k ih =
      Ends-bind (rebind_socket os pq link) _ (Rebound os pq link.conn) Polled
        (rebind_socket-Rebound os pq gives_new constructs link g) (λ e l r. (r.0, λ p. cc))
        (λ a l r.
          let attached = r.2 refl in
          wait_on-Polled l.socket status fuel l attached.0.1 (attached-IsGood l r.0 attached)
            (rw r.1 k) ih)

  poll_turn-Polled :
      (status : Polling) (fuel : ℕ) (link : Link C)
      → (pq.connect_poll link.conn).0 ≡ status
      → IsGood os pq link
      → answering.polls_left link.conn < suc fuel
      → Polls fuel
      → Ends
          (poll_turn os pq status
            (poll_loop os pq fuel)
            (record link { conn = (pq.connect_poll link.conn).1 }))
          Polled
  poll_turn-Polled polling_ok fuel link e g k ih = (g.0, λ p. g)
  poll_turn-Polled polling_failed fuel link e g k ih = (g.0, λ p. cc)
  poll_turn-Polled polling_reading fuel link e g k ih =
      wait_turn-Polled polling_reading fuel (record link { conn = (pq.connect_poll link.conn).1 }) g
        (omega (arith, k, answering.polls_less link.conn polling_reading e (λ p. cc) (λ p. cc))) ih
  poll_turn-Polled polling_writing fuel link e g k ih =
      wait_turn-Polled polling_writing fuel (record link { conn = (pq.connect_poll link.conn).1 }) g
        (omega (arith, k, answering.polls_less link.conn polling_writing e (λ p. cc) (λ p. cc))) ih
  poll_turn-Polled polling_active fuel link e g k ih =
      wait_turn-Polled polling_active fuel (record link { conn = (pq.connect_poll link.conn).1 }) g
        (omega (arith, k, answering.polls_less link.conn polling_active e (λ p. cc) (λ p. cc))) ih

  poll_loop-Polled : (fuel : ℕ) → Polls fuel
  unfolding poll_loop
  poll_loop-Polled zero link g k = absurd (omega arith)
  poll_loop-Polled (suc fuel) link g k =
      poll_turn-Polled (pq.connect_poll link.conn).0 fuel link refl g k (poll_loop-Polled fuel)

  -- How connectAsync leaves the connection.
  abbrev pub Connected : Reply → Link C → Type 0
  Connected r link =
      IsKept os pq link
      × (r ≡ ok tt
          → IsAttached os pq link × (link.statement_cursor ≡ 0) × (pq.is_bad link.conn ≡ false))

  bind_at_end :
      (b : Bool) (link : Link C)
      → pq.is_bad link.conn ≡ b
      → IsGood os pq link
      → Ends
          (continue
            (throw_if_bad os pq b link)
            (λ _. λ l. continue (rebind_socket os pq l) (λ _. reset_cursor os pq)))
          Connected
  bind_at_end true link e g = (g.0, λ p. cc)
  bind_at_end false link e g =
      Ends-bind (rebind_socket os pq link) _ (Rebound os pq link.conn) Connected
        (rebind_socket-Rebound os pq gives_new constructs link g) (λ what l r. (r.0, λ p. cc))
        (λ a l r. (r.0, λ p. (r.2 refl, refl, ap pq.is_bad r.1 ∙ e)))

  finish_connecting-Connected :
      (fuel : ℕ) (link : Link C)
      → IsGood os pq link
      → answering.polls_left link.conn < fuel
      → Ends (finish_connecting os pq fuel link) Connected
  unfolding finish_connecting
  finish_connecting-Connected fuel link g k =
      Ends-bind (poll_loop os pq fuel link) _ Polled Connected (poll_loop-Polled fuel link g k)
        (λ what l r. (r.0, λ p. cc)) (λ a l r. bind_at_end (pq.is_bad l.conn) l refl (r.1 refl))

  start_connecting-Connected :
      (b : Bool) (fuel : ℕ) (link : Link C)
      → IsGood os pq link
      → answering.polls_left (pq.set_nonblocking link.conn) < fuel
      → Ends (start_connecting os pq b fuel link) Connected
  start_connecting-Connected true fuel link g k = (g.0, λ p. cc)
  start_connecting-Connected false fuel link g k =
      finish_connecting-Connected fuel (record link { conn = pq.set_nonblocking link.conn }) g k

  close_owned : (socket : Option (Option ℕ)) → close_socket socket (owned_by socket) ≡ []
  unfolding close_dup_fd close_fd
  close_owned none = refl
  close_owned (some none) = refl
  close_owned (some (some fd)) = ground arith

  -- If dup gives descriptors that are not open yet, asio takes them for new sockets, the server
  -- answers, and the fuel exceeds the
  -- polls until it does, then connectAsync ends, from whatever state of a connection whose only
  -- open duplicate is the socket's. That is so afterwards as well, whether it returns or throws.
  -- If it returns, then the connection is not bad, its socket has a descriptor and is bound to
  -- that of libpq, and its cursor is at the beginning of the log.
  pub connect_async-Connected :
      (fuel : ℕ) (conninfo : String) (link : Link C)
      → IsKept os pq link
      → answering.polls_left (pq.set_nonblocking (pq.connect_start conninfo)) < fuel
      → Ends (connect_async os pq fuel conninfo link) Connected
  unfolding connect_async clear_socket
  connect_async-Connected fuel conninfo link h k =
      start_connecting-Connected (pq.is_null (pq.connect_start conninfo)) fuel
        (record link {
          conninfo = conninfo;
          socket = none;
          bound_libpq_fd = none;
          open_fds = close_socket link.socket link.open_fds;
          conn = pq.connect_start conninfo;
        })
        (ap (close_socket link.socket) h ∙ close_owned link.socket, λ e. cc) k
