-- ===== src/Tests/System.antt =====
-- A client that has connected and disconnected again, and the whole program after it has started its
-- server and accepted a connection, or told its client to connect, and at its end.
use micro_tcp.Common.{
  some, codes, inr, Bool, true, false, List, [], ◌∷◌, ◌≡◌, refl, String, ok, All, ◌≢◌,
}
use micro_tcp.Handlers.{handle_request, example_handlers}
use micro_tcp.Session.{Session, session}
use micro_tcp.Session.ClientSession
use micro_tcp.Session.Completion.{Completes, complete, handshake_done}
use micro_tcp.Message.{message}
use micro_tcp.Session
use micro_tcp.Session.Invariant.{IsOrderly}
use micro_tcp.IoManager
use micro_tcp.IoManager.{Resources, joinable, io_manager, default_num_threads}
use micro_tcp.Server
use micro_tcp.Server.{server, accepted}
use micro_tcp.Client
use micro_tcp.Client.Running
use micro_tcp.Client.Careful
use micro_tcp.Client.Careful.{ActiveIsOrderly, Run-IsOrderly}
use micro_tcp.Client.Running.{Releases, Run-Releases}
use micro_tcp.Console.{
  App, started, launch, command, quit, dispatch, server_of, client_of, with_server, with_client,
  end_client, end_server, end_manager, getline,
}
use micro_tcp.Console.System.{Reached, launches, happens, commands, accepts, resolves, IsRunning}
use micro_tcp.Console.Writes.{Reached-files}
use micro_tcp.Console.Ending.{
  Ending, finished, quits, disconnects, stops_server, stops_manager, meanwhile, Holds, GoesOn,
}
use micro_tcp.Console.Life.{Reached-lem}
use micro_tcp.Console.Late.{connects_late}
use micro_tcp.Server.Serving.{IsServing}
use micro_tcp.Tests.Machine.{machine, quiet}

abbrev lines : List String
lines = "server_start" ∷ "quit" ∷ []

-- A system that can start four more threads.
abbrev four : Resources
four = record { max_size = 1000; threads = 4 }

abbrev app : App machine
app = record {
  server = server machine (record { address = 4; port = 1234 }) handle_request quiet;
  client = Client.client quiet;
  io_manager = record {
    active = true;
    stopped = false;
    work = true;
    threads = joinable ∷ joinable ∷ [];
  };
  world = quiet;
}

launched : launch machine four "0.0.0.0" 1234 3 quiet ≡ ok app
unfolding launch started Server.server_at IoManager.start io_manager IoManager.clear_threads
    IoManager.spawn IoManager.set_active default_num_threads
launched = refl

abbrev listening : App machine
listening = with_server machine (Server.start machine (server_of machine app)) app

abbrev busy : App machine
busy =
    with_server machine
      (accepted machine 0 true (record (server_of machine listening) { accepting = 0 })) listening

listening-dispatch :
    dispatch machine "0.0.0.0" 1234 (command (getline lines).0) (getline lines).1 app
    ≡ ok ("quit" ∷ [], listening)
unfolding dispatch command
listening-dispatch = refl

started_goes_on : command (getline lines).0 ≢ quit
unfolding command
started_goes_on = λ e. cc

busy-Reached : Reached machine four "0.0.0.0" 1234 3 lines quiet ("quit" ∷ []) busy
unfolding server Server.start Server.attempt
busy-Reached =
    happens (commands (launches launched) started_goes_on listening-dispatch)
      (accepts 0 0 true refl)

-- The end of `main` from there, with the client not connected; another connection is accepted between
-- the first call and the second one.
abbrev crowded : App machine
crowded =
    with_server machine
      (accepted machine 0 true
        (record (server_of machine (end_client machine busy)) { accepting = 0 }))
      (end_client machine busy)

abbrev unheard : App machine
unheard = with_server machine (record (server_of machine crowded) { acceptor = false }) crowded

abbrev over : App machine
over = record unheard {
  io_manager = record {
    active = false;
    stopped = false;
    work = false;
    threads = IoManager.joined ∷ IoManager.joined ∷ [];
  };
}

unheard-lem : end_server machine crowded ≡ ok unheard
unfolding end_server Server.stop end_client Client.disconnect Server.start server Server.attempt
unheard-lem = refl

over-lem : end_manager machine unheard ≡ ok over
unfolding end_manager IoManager.stop IoManager.join_all end_client
over-lem = refl

over-Ending : Ending machine busy finished over
unfolding end_client server Server.start Server.attempt accepted
over-Ending =
    stops_manager {b = unheard}
      (stops_server {b = crowded} (meanwhile (disconnects quits) (λ e. cc) (accepts 0 0 true refl))
        unheard-lem)
      over-lem

Reached-lem_example :
    IsRunning machine busy
    × Holds machine finished over
    × GoesOn machine finished over
    × IsServing machine example_handlers over.server
    × All (IsOrderly machine Session.server) over.server.sessions
Reached-lem_example =
    Reached-lem machine four "0.0.0.0" 1234 3 lines quiet (λ b. refl) busy-Reached over-Ending

-- The client has been told to connect, and the name of the server is resolved.
abbrev calls : List String
calls = "client_connect" ∷ "quit" ∷ []

abbrev calling : App machine
calling = with_client machine (Client.connect (client_of machine app)) app

abbrev dialling : App machine
dialling = with_client machine (Client.resolved machine 0 (client_of machine calling)) calling

calling-dispatch :
    dispatch machine "0.0.0.0" 1234 (command (getline calls).0) (getline calls).1 app
    ≡ ok ("quit" ∷ [], calling)
unfolding dispatch command
calling-dispatch = refl

calling_goes_on : command (getline calls).0 ≢ quit
unfolding command
calling_goes_on = λ e. cc

dialling-Reached : Reached machine four "0.0.0.0" 1234 3 calls quiet ("quit" ∷ []) dialling
unfolding Client.client Client.connect
dialling-Reached =
    happens (commands (launches launched) calling_goes_on calling-dispatch) (resolves 0 0 refl)

dialling-connecting : dialling.client.connecting ≡ 1
unfolding Client.client Client.connect Client.resolved
dialling-connecting = refl

connects_late_example :
    (b : App machine) × Ending machine dialling finished b
    × (Client.is_connected machine b.client ≡ true)
connects_late_example =
    connects_late machine four "0.0.0.0" 1234 3 calls quiet 0 0 true (λ b. refl) dialling-Reached
      dialling-connecting refl refl

Reached-files_example : busy.world.files "config.xml" ≡ quiet.files "config.xml"
Reached-files_example =
    Reached-files machine four "config.xml" "0.0.0.0" 1234 3 lines quiet refl busy-Reached

-- The client connects and disconnects; its session is still shutting down.
abbrev joined : Client.Client Bool
joined =
    Client.connected machine 0 true
      (Client.resolved machine 0 (Client.connect (Client.client quiet)))

joined-Run :
    Running.Run machine example_handlers (Client.client quiet) (Client.disconnect machine joined)
unfolding Client.client Client.connect Client.resolved Client.connected
joined-Run =
    Running.later
      (Running.later
        (Running.later (Running.later Running.here Running.calls_connect)
          (Running.resolves 0 0 refl))
        (Running.connects 0 0 true refl (inr refl)))
      Running.calls_disconnect

Run-Releases_example : Releases machine example_handlers (Client.disconnect machine joined)
Run-Releases_example = Run-Releases machine example_handlers quiet joined-Run

-- The session of this client is idle behind its handshake, and sends.
abbrev greeted : Session Bool
greeted =
    ClientSession.on_secure_handshake
      (record (ClientSession.start (session true quiet)) { pending = [] })

greeted-Completes :
    Completes machine example_handlers Session.client quiet
      (ClientSession.start (session true quiet))
      greeted
unfolding ClientSession.start session complete handshake_done
greeted-Completes = ([], [], Session.async_handshake Session.client, 0, [], refl, refl)

abbrev idle : Client.Client Bool
idle = record joined { active_session = some greeted; world = greeted.world }

idle-Run : Careful.Run machine example_handlers (Client.client quiet) idle
unfolding Client.client Client.connect Client.resolved Client.connected
idle-Run =
    Careful.later
      (Careful.later
        (Careful.later (Careful.later Careful.here Careful.calls_connect)
          (Careful.resolves 0 0 refl))
        (Careful.connects 0 0 true refl))
      (Careful.answers (ClientSession.start (session true quiet)) greeted refl greeted-Completes)

abbrev asking : Client.Client Bool
asking = (Client.send machine (message (codes "hi")) idle).1

Run-IsOrderly_example :
    ActiveIsOrderly machine example_handlers asking.active_session
    × All (IsOrderly machine Session.client) asking.detached
unfolding ClientSession.start ClientSession.on_secure_handshake session
Run-IsOrderly_example =
    Run-IsOrderly machine example_handlers quiet
      (Careful.later idle-Run (Careful.calls_send (message (codes "hi")) refl))
