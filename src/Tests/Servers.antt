-- ===== src/Tests/Servers.antt =====
-- The manager of the threads and the server.
use micro_tcp.Common.{
  ◌>>=◌, arith, ◌^◌, ℕ, ◌-◌, ◌&&◌, true, false, not, [], ◌∷◌, inl, ◌≡◌, refl, ok, if◌then◌else◌,
}
use micro_tcp.Platform.{Endpoint}
use micro_tcp.Handlers.{handle_request}
use micro_tcp.Session.{session}
use micro_tcp.Session.ServerSession
use micro_tcp.IoManager.{Resources, destroy, io_manager}
use micro_tcp.IoManager.Lifecycle.{Returns, io_manager-IsManaged}
use micro_tcp.IoManager.Lifecycle.Calls.{starts, stops, perform, IsPerformed, perform-IsManaged}
use micro_tcp.IoManager.Lifecycle.Cuts.{verdict, cuts, destroy_managed}
use micro_tcp.Server.{
  ServerOf, server, is_listening, start, stop, accepted, set_address, port_in_use,
  get_local_addresses,
}
use micro_tcp.Server.Settings.{set_address_lem}
use micro_tcp.Server.Accepting.{
  Reach, HasOneAccept, start_lem, start_idempotent, accepted_lem, Reach-HasOneAccept,
  restart_doubles,
}
use micro_tcp.Server.Accepting
use micro_tcp.Tests.Machine.{machine, quiet}

-- A system that starts four threads and no more in a call.
abbrev four : Resources
four = record { max_size = 2 ^ 32; threads = 4 }

perform-IsManaged_example :
    Returns IsPerformed
      (perform (starts four 2 ∷ starts four 4 ∷ stops ∷ stops ∷ starts four 1 ∷ []) io_manager)
perform-IsManaged_example =
    perform-IsManaged (starts four 2 ∷ starts four 4 ∷ stops ∷ stops ∷ starts four 1 ∷ [])
      io_manager
      ((omega arith, omega arith), ((omega arith, omega arith), ((omega arith, omega arith), tt)))
      io_manager-IsManaged

destroy_managed_example :
    (perform (starts four 2 ∷ stops ∷ starts four 6 ∷ stops ∷ []) io_manager >>= λ y. destroy y.1)
    ≡ verdict (cuts false (starts four 2 ∷ stops ∷ starts four 6 ∷ stops ∷ []))
destroy_managed_example = destroy_managed (starts four 2 ∷ stops ∷ starts four 6 ∷ stops ∷ [])

-- The second start gets four of its six threads.
cuts_six : cuts false (starts four 2 ∷ stops ∷ starts four 6 ∷ stops ∷ []) ≡ true
unfolding cuts
cuts_six = refl

abbrev everywhere : Endpoint ℕ
everywhere = record { address = 4; port = 1234 }

-- A new server, and one that listens with an accept pending.
abbrev fresh : ServerOf machine
fresh = server machine everywhere handle_request quiet

abbrev listener : ServerOf machine
listener = record {
  acceptor = true;
  endpoint = everywhere;
  request_handler = handle_request;
  accepting = 1;
  sessions = [];
  world = quiet;
}

abbrev closed : ServerOf machine
closed = record listener { acceptor = false; accepting = 0 }

is_listening-fresh : is_listening machine fresh ≡ false
unfolding is_listening server
is_listening-fresh = refl

is_listening-closed : is_listening machine closed ≡ false
unfolding is_listening
is_listening-closed = refl

is_listening-listener : is_listening machine listener ≡ true
unfolding is_listening
is_listening-listener = refl

start_lem_example :
    (is_listening machine (start machine closed) ≡ true)
    × ((start machine closed).accepting ≡ 1)
    × ((start machine closed).endpoint ≡ everywhere)
    × ((start machine closed).request_handler ≡ handle_request)
    × ((start machine closed).sessions ≡ [])
start_lem_example = start_lem machine closed is_listening-closed

accepted_lem_example :
    ((accepted machine 0 true listener).sessions ≡ (
      if is_listening machine listener && true
      then ServerSession.start (session true quiet) ∷ []
      else []))
    × ((accepted machine 0 true listener).accepting
        ≡ (if is_listening machine listener then 2 else 1))
    × ((accepted machine 0 true listener).acceptor ≡ true)
    × ((accepted machine 0 true listener).endpoint ≡ everywhere)
accepted_lem_example = accepted_lem machine 0 true listener

fresh_starts : Reach machine fresh (start machine fresh)
unfolding server
fresh_starts = Accepting.next Accepting.here (Accepting.starts (inl refl))

stopped : ServerOf machine
stopped = record listener { acceptor = false }

listener_stops : stop machine listener ≡ ok stopped
unfolding stop stopped
listener_stops = refl

stopped_opens :
    machine.failed (machine.open_acceptor stopped.endpoint.address stopped.acceptor).0 ≡ false
unfolding stopped
stopped_opens = refl

restart_doubles_example :
    ((accepted machine 1 true (record (start machine stopped) {
      accepting = (start machine stopped).accepting - 1;
    })).accepting
      ≡ 2)
    × ((accepted machine 1 true (record (start machine stopped) {
      accepting = (start machine stopped).accepting - 1;
    })).sessions
        ≡ [])
restart_doubles_example =
    restart_doubles machine listener stopped 1 true refl listener_stops stopped_opens refl

set_address_lem_example :
    ((set_address machine 6 listener).0 ≡ not (is_listening machine listener))
    × ((set_address machine 6 listener).1.endpoint.address ≡ 6)
    × ((set_address machine 6 listener).1.endpoint.port ≡ 1234)
set_address_lem_example = set_address_lem machine listener 6

used_port : port_in_use machine 80 closed ≡ ok true
unfolding port_in_use
used_port = refl

local_addresses_both : get_local_addresses machine false ≡ ok ("::1" ∷ "0.0.0.0" ∷ [])
unfolding get_local_addresses
local_addresses_both = refl

local_addresses_ipv4 : get_local_addresses machine true ≡ ok ("0.0.0.0" ∷ [])
unfolding get_local_addresses
local_addresses_ipv4 = refl
