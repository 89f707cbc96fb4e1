-- ===== src/Chat/Server/Loop/Order.antt =====
-- The chat server's table of names stays in order through every run of its loop.
use intern_status_update.Base.{
  ℕ, ◌≡◌, subst, inl, inr, [], ◌∷◌, List, Bytes, Option, none, some, ok, ok-injective, after,
  Bool-cases, live-append_old,
}
use intern_status_update.Base.Int.{ℤ, pos, int_eq}
use intern_status_update.HashMap.Correct.{init_table-IsTable, get-init_table}
use intern_status_update.TicTacToe.Loop.{OpenSsl, client_key_of}
use intern_status_update.Chat.Server.{Server, create_client, load}
use intern_status_update.Chat.Server.Owners.{Inv}
use intern_status_update.Chat.Server.Registry.{Keeps, close_connection-Keeps}
use intern_status_update.Chat.Server.Invariant.{client_event-Inv}
use intern_status_update.Chat.Server.Loop.{
  Kernel, request_bytes, handshake_text, welcome, accept_client, handle_event, handle_all,
  handle_batch, run, start, attend,
}

module _ (ssl : OpenSsl) (listen_fd : ℤ) where
  welcome-Keeps : (fd : ℤ) (key : Option Bytes) → Keeps (welcome ssl fd key)
  unfolding welcome
  welcome-Keeps fd none s v t h = subst Inv (ok-injective h) v
  welcome-Keeps fd (some key) s v t h = after (handshake_text ssl key) _ t h λ response e g.
      subst Inv (ok-injective g) (record {
        table = v.table;
        owner = λ name p listed.
            let (r, at, named, added) = v.owner name p listed in
            (r, live-append_old s.clients p (create_client fd) r at, named, added);
      })

  accept_client-Keeps : (k : Kernel) (o : Option ℕ) → Keeps (accept_client ssl k o)
  unfolding accept_client
  accept_client-Keeps k none s v t h = subst Inv (ok-injective h) v
  accept_client-Keeps k (some fd) s v t h =
      after (client_key_of (request_bytes k.input k.stale)) _ t h
        λ key e g. welcome-Keeps (pos fd) key s v t g

  handle_event-Keeps : (k : Kernel) (c : ℕ) → Keeps (handle_event ssl listen_fd k c)
  unfolding handle_event attend accept_client
  handle_event-Keeps k c s v t h = after (load c s) _ t h λ r e g. elim (Bool-cases k.broken) [
    | inl e1 ↦ close_connection-Keeps c s v t (rw e1 at g)
    | inr e1 ↦ elim (Bool-cases (int_eq r.fd listen_fd)) [
      | inl e2 ↦ accept_client-Keeps k k.accepted s v t (rw (e1, e2) at g)
      | inr e2 ↦ client_event-Inv c k.input k.stale s t v (rw (e1, e2) at g)
    ]
  ]

  handle_all-Keeps :
      (first : ℕ) (events : List (Kernel × ℕ)) → Keeps (handle_all ssl listen_fd first events)
  unfolding handle_all
  handle_all-Keeps first [] s v t h = subst Inv (ok-injective h) v
  handle_all-Keeps first ((k, c) ∷ events) s v t h =
      after (handle_event ssl listen_fd k first s) _ t h
        λ s1 e g. handle_all-Keeps first events s1 (handle_event-Keeps k first s v s1 e) t g

  handle_batch-Keeps : (events : List (Kernel × ℕ)) → Keeps (handle_batch ssl listen_fd events)
  unfolding handle_batch
  handle_batch-Keeps [] s v t h = subst Inv (ok-injective h) v
  handle_batch-Keeps ((k, c) ∷ events) s v t h = handle_all-Keeps c ((k, c) ∷ events) s v t h

  run-Keeps : (batches : List (List (Kernel × ℕ))) → Keeps (run ssl listen_fd batches)
  unfolding run
  run-Keeps [] s v t h = subst Inv (ok-injective h) v
  run-Keeps (batch ∷ batches) s v t h =
      after (handle_batch ssl listen_fd batch s) _ t h
        λ s1 e g. run-Keeps batches s1 (handle_batch-Keeps batch s v s1 e) t g

  start-Inv : Inv (start listen_fd)
  unfolding start
  start-Inv = record {
    table = init_table-IsTable;
    owner = λ key p listed. cc (rw get-init_table at listed);
  }

  -- However many connections are accepted and whatever the clients send, in any order and in any
  -- batches: as long as nothing faults, the table of names is well formed and every name in it
  -- stands for a client that is alive, registered and has this name.
  pub run-start-IsOrdered :
      (batches : List (List (Kernel × ℕ))) (t : Server)
      → run ssl listen_fd batches (start listen_fd) ≡ ok t
      → Inv t
  run-start-IsOrdered batches t h = run-Keeps batches (start listen_fd) start-Inv t h
