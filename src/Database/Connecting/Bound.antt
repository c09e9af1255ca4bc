-- ===== src/Database/Connecting/Bound.antt =====
-- The descriptors of a connection, and what a connection is that connectAsync returns with.
use oink_judge.Prelude.{
  ℕ, Bool, true, false, ◌≡◌, ◌≢◌, refl, sym, ap, ◌∙◌, Option, none, some, List, [], ◌∷◌, All, ◌==◌,
  nat_eq, Reply, ok, arith,
}
use mathlib.Core.Path.{subst}
use oink_judge.Prelude.Await.{Ends}
use oink_judge.Database.Connecting.{
  Postgres, Descriptors, Link, close_fd, close_dup_fd, is_bound_to, assign_socket, emplace_socket,
  attach_socket, bind_duplicate, bind_unless, bind_socket, bind_initialized, rebind_socket,
}

-- The descriptors that a socket owns.
abbrev pub owned_by : Option (Option ℕ) → List ℕ
owned_by none = []
owned_by (some none) = []
owned_by (some (some fd)) = fd ∷ []

-- What POSIX says of dup: the new descriptor is none of those that are open.
abbrev pub GivesNew : Descriptors → Type 0
GivesNew os = (fd d : ℕ) (fds : List ℕ) → os.dup fd fds ≡ some d → All (λ f. (d == f) ≡ false) fds

-- asio takes a new duplicate for a new socket.
abbrev pub Constructs : Descriptors → Type 0
Constructs os = (d : ℕ) → os.construct_ok d ≡ true

module _ {C : Type 0} (os : Descriptors) (pq : Postgres C) where
  -- No duplicate is open but the one that the socket owns.
  abbrev pub IsKept : Link C → Type 0
  IsKept link = link.open_fds ≡ owned_by link.socket

  -- The socket has a descriptor, a duplicate of libpq's.
  abbrev pub IsAttached : Link C → Type 0
  IsAttached link =
      ((d : ℕ) × (link.socket ≡ some (some d))) × (link.bound_libpq_fd ≡ pq.socket_of link.conn)

  abbrev pub IsGood : Link C → Type 0
  IsGood link = IsKept link × (link.socket ≢ some none)

  abbrev pub Rebound : C → Reply → Link C → Type 0
  Rebound conn r link = IsKept link × (link.conn ≡ conn) × (r ≡ ok tt → IsAttached link)

  close_old : (d old : ℕ) → (d == old) ≡ false → close_dup_fd (some old) (d ∷ old ∷ []) ≡ d ∷ []
  unfolding close_dup_fd
  close_old d old e = ground arith

  close_new : (d : ℕ) → close_fd d (d ∷ []) ≡ []
  unfolding close_fd
  close_new d = ground arith

  assign_socket-Rebound :
      (b : Bool) (fd d old : ℕ) (link : Link C)
      → (d == old) ≡ false
      → link.open_fds ≡ d ∷ old ∷ []
      → pq.socket_of link.conn ≡ some fd
      → Ends (assign_socket os b fd d (some old) link) (Rebound link.conn)
  assign_socket-Rebound true fd d old link e o s =
      (ap (close_dup_fd (some old)) o ∙ close_old d old e, refl, λ p. ((d, refl), sym s))
  assign_socket-Rebound false fd d old link e o s = (
    ap (λ fds. close_fd d (close_dup_fd (some old) fds)) o
        ∙ ap (close_fd d) (close_old d old e)
        ∙ close_new d,
    refl,
    λ p. cc,
  )

  emplace_socket-Rebound :
      (b : Bool) (fd d : ℕ) (link : Link C)
      → b ≡ true
      → link.open_fds ≡ d ∷ []
      → pq.socket_of link.conn ≡ some fd
      → Ends (emplace_socket os b fd d link) (Rebound link.conn)
  emplace_socket-Rebound true fd d link e o s = (o, refl, λ p. ((d, refl), sym s))
  emplace_socket-Rebound false fd d link e o s = cc

  attach_socket-Rebound :
      (socket : Option (Option ℕ)) (fd d : ℕ) (link : Link C)
      → Constructs os
      → All (λ f. (d == f) ≡ false) (owned_by socket)
      → link.open_fds ≡ d ∷ owned_by socket
      → socket ≢ some none
      → pq.socket_of link.conn ≡ some fd
      → Ends (attach_socket os socket fd d link) (Rebound link.conn)
  attach_socket-Rebound none fd d link t a o g s =
      emplace_socket-Rebound (os.construct_ok d) fd d link (t d) o s
  attach_socket-Rebound (some none) fd d link t a o g s = absurd (g refl)
  attach_socket-Rebound (some (some old)) fd d link t a o g s =
      assign_socket-Rebound (os.assign_ok d) fd d old link a.0 o s

  module _ (gives_new : GivesNew os) (constructs : Constructs os) where
    bind_duplicate-Rebound :
        (duplicate : Option ℕ) (fd : ℕ) (link : Link C)
        → os.dup fd link.open_fds ≡ duplicate
        → IsGood link
        → pq.socket_of link.conn ≡ some fd
        → Ends (bind_duplicate os fd duplicate link) (Rebound link.conn)
    bind_duplicate-Rebound none fd link e h s = (h.0, refl, λ p. cc)
    bind_duplicate-Rebound (some d) fd link e h s =
        attach_socket-Rebound link.socket fd d (record link { open_fds = d ∷ link.open_fds })
          constructs (subst (All (λ f. (d == f) ≡ false)) h.0 (gives_new fd d link.open_fds e))
          (ap (λ r. d ∷ r) h.0) h.1 s

    bound_already :
        (socket : Option (Option ℕ)) (bound : Option ℕ) (fd : ℕ)
        → is_bound_to socket bound fd ≡ true
        → socket ≢ some none
        → ((d : ℕ) × (socket ≡ some (some d))) × (bound ≡ some fd)
    bound_already none bound fd e g = cc
    bound_already (some handle) none fd e g = cc
    bound_already (some none) (some b) fd e g = absurd (g refl)
    bound_already (some (some d)) (some b) fd e g = ((d, refl), ground arith)

    bind_unless-Rebound :
        (b : Bool) (fd : ℕ) (link : Link C)
        → is_bound_to link.socket link.bound_libpq_fd fd ≡ b
        → IsGood link
        → pq.socket_of link.conn ≡ some fd
        → Ends (bind_unless os b fd link) (Rebound link.conn)
    bind_unless-Rebound true fd link e h s =
        let a = bound_already link.socket link.bound_libpq_fd fd e h.1 in
        (h.0, refl, λ p. (a.0, a.1 ∙ sym s))
    bind_unless-Rebound false fd link e h s =
        bind_duplicate-Rebound (os.dup fd link.open_fds) fd link refl h s

    bind_socket-Rebound :
        (socket : Option ℕ) (link : Link C)
        → pq.socket_of link.conn ≡ socket
        → IsGood link
        → Ends (bind_socket os socket link) (Rebound link.conn)
    bind_socket-Rebound none link s h = (h.0, refl, λ p. cc)
    bind_socket-Rebound (some fd) link s h =
        bind_unless-Rebound (is_bound_to link.socket link.bound_libpq_fd fd) fd link refl h s

    bind_initialized-Rebound :
        (b : Bool) (link : Link C)
        → IsGood link
        → Ends (bind_initialized os pq b link) (Rebound link.conn)
    bind_initialized-Rebound true link h = (h.0, refl, λ p. cc)
    bind_initialized-Rebound false link h = bind_socket-Rebound (pq.socket_of link.conn) link refl h

    pub rebind_socket-Rebound :
        (link : Link C) → IsGood link → Ends (rebind_socket os pq link) (Rebound link.conn)
    unfolding rebind_socket
    rebind_socket-Rebound link h = bind_initialized-Rebound (pq.is_null link.conn) link h
