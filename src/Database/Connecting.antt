-- ===== src/Database/Connecting.antt =====
-- modules/database/src/libpq_connection.cpp: connectAsync, reconnectAsync and the socket that waits
-- for the server, which is a duplicate of libpq's descriptor.
pub mod Bound
pub mod Connected
use oink_judge.Prelude.{
  ℕ, zero, suc, String, Bool, true, false, Option, none, some, List, [], ◌∷◌, ◌&&◌, if◌then◌else◌,
  ◌==◌, nat_eq,
}
use oink_judge.Prelude.Await.{Await, pure, raise, waiting, ◌>>=◌, ◌>>◌}

-- PostgresPollingStatusType
pub data Polling : Type 0 where
  polling_ok polling_failed polling_reading polling_writing polling_active : Polling

-- libpq: a `PGconn*` with what it points to is a `C`. `wait` is asio's wait for what the status
-- asks for.
pub record Postgres (C : Type 0) : Type 0 where
  pub null : C
  pub is_null : C → Bool
  pub connect_start : String → C
  pub set_nonblocking : C → C
  pub connect_poll : C → Polling × C
  pub is_bad : C → Bool
  pub is_good : C → Bool
  pub socket_of : C → Option ℕ
  pub error_message : C → String
  pub wait : Polling → C → C

-- `dup`, by the descriptors that the connection has open, and whether asio takes a descriptor: in
-- `assign`, and in the constructor of stream_descriptor, which throws otherwise.
pub record Descriptors : Type 0 where
  pub dup : ℕ → List ℕ → Option ℕ
  pub assign_ok : ℕ → Bool
  pub construct_ok : ℕ → Bool

-- LibpqConnection: `socket` is `some none` for a stream_descriptor without a descriptor, and
-- `bound_libpq_fd` is `none` for -1. `open_fds` are the duplicates that are open.
pub record Link (C : Type 0) : Type 0 where
  pub conn : C
  pub conninfo : String
  pub statement_cursor : ℕ
  pub bound_libpq_fd : Option ℕ
  pub socket : Option (Option ℕ)
  pub open_fds : List ℕ

-- ::close
unfoldable pub close_fd : ℕ → List ℕ → List ℕ
close_fd fd [] = []
close_fd fd (other ∷ fds) = if other == fd then fds else other ∷ close_fd fd fds

-- closeDupFd, and the destructor of a stream_descriptor
unfoldable pub close_dup_fd : Option ℕ → List ℕ → List ℕ
unfolding close_fd
close_dup_fd none fds = fds
close_dup_fd (some fd) fds = close_fd fd fds

abbrev pub close_socket : Option (Option ℕ) → List ℕ → List ℕ
close_socket none fds = fds
close_socket (some handle) fds = close_dup_fd handle fds

-- `socket_.has_value() && bound_libpq_fd_ == libpq_fd`
abbrev pub is_bound_to : Option (Option ℕ) → Option ℕ → ℕ → Bool
is_bound_to none bound fd = false
is_bound_to (some handle) none fd = false
is_bound_to (some handle) (some bound) fd = bound == fd

module _ {C : Type 0} where
  unfoldable pub clear_socket : Link C → Link C
  unfolding close_dup_fd
  clear_socket link = record link {
    socket = none;
    bound_libpq_fd = none;
    open_fds = close_socket link.socket link.open_fds;
  }

  module _ (os : Descriptors) where
    -- The branches of rebindSocketIfNeeded: on what `assign` says, on `socket_`, on what `dup`
    -- gives, and on the descriptor of libpq.
    abbrev pub assign_socket : Bool → ℕ → ℕ → Option ℕ → Await (Link C) Unit
    assign_socket true fd duplicate old link = pure tt (record link {
      socket = some (some duplicate);
      bound_libpq_fd = some fd;
      open_fds = close_dup_fd old link.open_fds;
    })
    assign_socket false fd duplicate old link =
        raise "failed to assign PostgreSQL socket: " (record link {
          socket = some none;
          open_fds = close_fd duplicate (close_dup_fd old link.open_fds);
        })

    -- `socket_.emplace`; where it throws, nothing closes the duplicate.
    abbrev pub emplace_socket : Bool → ℕ → ℕ → Await (Link C) Unit
    emplace_socket true fd duplicate link =
        pure tt (record link { socket = some (some duplicate); bound_libpq_fd = some fd })
    emplace_socket false fd duplicate link = raise "assign" link

    abbrev pub attach_socket : Option (Option ℕ) → ℕ → ℕ → Await (Link C) Unit
    attach_socket none fd duplicate link =
        emplace_socket (os.construct_ok duplicate) fd duplicate link
    attach_socket (some old) fd duplicate link =
        assign_socket (os.assign_ok duplicate) fd duplicate old link

    abbrev pub bind_duplicate : ℕ → Option ℕ → Await (Link C) Unit
    bind_duplicate fd none link = raise "dup() failed for PostgreSQL socket" link
    bind_duplicate fd (some duplicate) link =
        attach_socket link.socket fd duplicate
          (record link { open_fds = duplicate ∷ link.open_fds })

    abbrev pub bind_unless : Bool → ℕ → Await (Link C) Unit
    bind_unless true fd link = pure tt link
    bind_unless false fd link = bind_duplicate fd (os.dup fd link.open_fds) link

    abbrev pub bind_socket : Option ℕ → Await (Link C) Unit
    bind_socket none link = raise "invalid PostgreSQL socket" link
    bind_socket (some fd) link =
        bind_unless (is_bound_to link.socket link.bound_libpq_fd fd) fd link

    module _ (pq : Postgres C) where
      abbrev pub bind_initialized : Bool → Await (Link C) Unit
      bind_initialized true link = raise "connection is not initialized" link
      bind_initialized false link = bind_socket (pq.socket_of link.conn) link

      -- rebindSocketIfNeeded
      unfoldable pub rebind_socket : Await (Link C) Unit
      unfolding close_dup_fd
      rebind_socket link = bind_initialized (pq.is_null link.conn) link

      -- waitForPolling
      abbrev pub wait_on : Option (Option ℕ) → Polling → Await (Link C) Unit
      wait_on none status link = raise "socket is not bound" link
      wait_on (some handle) status link = pure tt (record link { conn = pq.wait status link.conn })

      unfoldable pub wait_for_polling : Polling → Await (Link C) Unit
      wait_for_polling status link = wait_on link.socket status link

      abbrev pub raise_message : Await (Link C) Unit
      raise_message link = raise (pq.error_message link.conn) link

      abbrev pub poll : Await (Link C) Polling
      poll link =
          let (status, conn) = pq.connect_poll link.conn in
          pure status (record link { conn = conn })

      -- The loop of connectAsync
      abbrev pub poll_turn : Polling → Await (Link C) Unit → Await (Link C) Unit
      poll_turn polling_ok rest = pure tt
      poll_turn polling_failed rest = raise_message
      poll_turn polling_reading rest = do rebind_socket; wait_for_polling polling_reading; rest
      poll_turn polling_writing rest = do rebind_socket; wait_for_polling polling_writing; rest
      poll_turn polling_active rest = do rebind_socket; wait_for_polling polling_active; rest

      unfoldable pub poll_loop : ℕ → Await (Link C) Unit
      unfolding rebind_socket wait_for_polling
      poll_loop zero = waiting
      poll_loop (suc fuel) = do status ← poll; poll_turn status (poll_loop fuel)

      -- throwIfConnectionBad
      abbrev pub throw_if_bad : Bool → Await (Link C) Unit
      throw_if_bad true = raise_message
      throw_if_bad false = pure tt

      abbrev pub reset_cursor : Await (Link C) Unit
      reset_cursor link = pure tt (record link { statement_cursor = 0 })

      -- connectAsync from PQsetnonblocking on
      unfoldable pub finish_connecting : ℕ → Await (Link C) Unit
      unfolding poll_loop rebind_socket
      finish_connecting fuel = do
        poll_loop fuel
        λ link. throw_if_bad (pq.is_bad link.conn) link
        rebind_socket
        reset_cursor

      abbrev pub start_connecting : Bool → ℕ → Await (Link C) Unit
      start_connecting true fuel link = raise "PQconnectStart failed" link
      start_connecting false fuel link =
          finish_connecting fuel (record link { conn = pq.set_nonblocking link.conn })

      unfoldable pub connect_async : ℕ → String → Await (Link C) Unit
      unfolding clear_socket finish_connecting
      connect_async fuel conninfo link =
          let cleared = clear_socket (record link { conninfo = conninfo }) in
          let conn = pq.connect_start conninfo in
          start_connecting (pq.is_null conn) fuel (record cleared { conn = conn })

      unfoldable pub reconnect_async : ℕ → String → Await (Link C) Unit
      unfolding connect_async
      reconnect_async fuel conninfo link =
          connect_async fuel conninfo (record link { statement_cursor = 0 })

      unfoldable pub is_healthy : Link C → Bool
      is_healthy link = if pq.is_null link.conn then false else pq.is_good link.conn
