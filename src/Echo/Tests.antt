-- ===== src/Echo/Tests.antt =====
-- Mini Project 27-1-26/EchoServer.c: two sessions of one address.
use intern_status_update.Base.{
  ◌≡◌, refl, [], ◌∷◌, ◌++◌, List, Bytes, true, false, ok, ◌>>=◌, replicate, codes, take_exact, take,
  str_eq, map, arith, Returns,
}
use intern_status_update.Base.Int.{ℤ, pos, no_fd}
use intern_status_update.Libc.{cstr}
use intern_status_update.Packet.{
  ClientData, pack_client_data, unpack_client_data, pad, trim, step_back,
}
use intern_status_update.Packet.Transfer.{Received, whole, none_left}
use intern_status_update.Echo.{
  reading, sending, Server, Kernel, Event, accepted, turn, find_user, add_or_update_user, add_user,
  update_user, receive, count_echo, read_counts, advance, handle_event, run, start, send_answer,
  forget_socket,
}
use intern_status_update.Echo.Invariant.{Inv}
use intern_status_update.Echo.Invariant.Runs.{run-start-IsAccounted}
use intern_status_update.Echo.Progress.{handle_event-turn}
use intern_status_update.Packet.Tests.{byte_swap, greeting}

abbrev address : Bytes
address = codes "10.0.0.1"

abbrev gets : Received → Kernel
gets input = record { input = input; sends = true }

-- What arrives of the packet.
abbrev greeting_read : ClientData
greeting_read = record {
  message = codes "hi you" ++ (replicate 93 b' ' ++ 0 ∷ []);
  time_str = codes "10:30" ++ (replicate 26 b' ' ++ 0 ∷ []);
}

-- A second session of the address is accepted while the first one has counted its echo.
abbrev two_sessions : List Event
two_sessions =
    accepted (pos 4) address
    ∷ turn 0 (gets none_left)
    ∷ turn 0 (gets (whole (pack_client_data greeting)))
    ∷ turn 0 (gets none_left)
    ∷ accepted (pos 5) address
    ∷ turn 1 (gets none_left)
    ∷ turn 0 (gets none_left)
    ∷ []

abbrev replaced : Server
replaced = record {
  cfds = record { fd = pos 5; echo_count = 1; ip_address = address } ∷ [];
  total_echo = 1;
  threads =
      record {
        client = record { fd = pos 4; echo_count = 0; ip_address = address };
        stage = sending 0 (record { echo = greeting_read; user_count = 1; total_count = 1 });
      }
      ∷ record {
        client = record { fd = pos 5; echo_count = 0; ip_address = address };
        stage = reading 0;
      }
      ∷ [];
  closed = pos 4 ∷ [];
  sent = [];
  exited = false;
}

run-two_sessions : run byte_swap two_sessions start ≡ ok replaced
unfolding run start handle_event advance add_or_update_user find_user add_user update_user receive
    count_echo read_counts forget_socket unpack_client_data pack_client_data pad replicate cstr
    take_exact take str_eq trim step_back send_answer
run-two_sessions = refl

run-start-IsAccounted_example : Inv replaced
run-start-IsAccounted_example =
    run-start-IsAccounted byte_swap two_sessions replaced run-two_sessions

handle_event-turn_example : Returns (handle_event byte_swap (turn 1 (gets none_left)) replaced)
handle_event-turn_example =
    handle_event-turn byte_swap (gets none_left) 1
      (record {
        client = record { fd = pos 5; echo_count = 0; ip_address = address };
        stage = reading 0;
      })
      replaced (run-start-IsAccounted byte_swap two_sessions replaced run-two_sessions) refl
      (omega arith) (omega arith) tt tt

-- The replaced session ends: its socket is closed once more, and the entry of the living session
-- loses its own.
abbrev the_end : List Event
the_end = turn 0 (gets none_left) ∷ turn 0 (gets none_left) ∷ turn 0 (gets none_left) ∷ []

abbrev sockets : Server → List ℤ × List ℤ
sockets s = (s.closed, map (λ c. c.fd) s.cfds)

run-the_end :
    (run byte_swap the_end replaced >>= λ s. ok (sockets s)) ≡ ok (pos 4 ∷ pos 4 ∷ [], no_fd ∷ [])
unfolding run start handle_event advance add_or_update_user find_user add_user update_user receive
    count_echo read_counts forget_socket unpack_client_data pack_client_data pad replicate cstr
    take_exact take str_eq trim step_back send_answer
run-the_end = refl
