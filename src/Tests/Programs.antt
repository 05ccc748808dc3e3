-- ===== src/Tests/Programs.antt =====
-- The client and the loop of `main`.
use micro_tcp.Common.{Bool, true, false, [], some, none, ◌≡◌, refl, codes}
use micro_tcp.Message.{default_message}
use micro_tcp.Handlers.{handle_request}
use micro_tcp.Session.{Session, session, async_write_header, stop}
use micro_tcp.Session.ClientSession
use micro_tcp.Session
use micro_tcp.Client.{connect, resolved, Client, connected, is_connected}
use micro_tcp.Client.Calls.{connect_lem}
use micro_tcp.IoManager.{io_manager}
use micro_tcp.Console.{App, command, console, server_start}
use micro_tcp.Console.Loop.{HasLooped, console_eof}
use micro_tcp.Tests.Machine.{machine, quiet}

-- A client's session with nothing pending, and a client that has it.
abbrev calm : Session Bool
calm = record {
  read_buffer = default_message;
  write_buffer = default_message;
  socket = true;
  timeout = none;
  pending = [];
  world = quiet;
}

abbrev joined : Client Bool
joined = record {
  active_session = some calm;
  detached = [];
  resolving = 0;
  connecting = 0;
  world = quiet;
}

-- The client behind a call of `connect` and its two completions.
abbrev rejoined : Client Bool
rejoined = connected machine 0 true (resolved machine 0 (connect joined))

connect_lem_example :
    (rejoined.resolving ≡ 0)
    × (rejoined.connecting ≡ 0)
    × (rejoined.active_session ≡ some (ClientSession.start (session true quiet)))
    × (rejoined.detached ≡ [])
    × (is_connected machine rejoined ≡ true)
connect_lem_example = connect_lem machine 0 0 true joined refl

joined_connected : is_connected machine joined ≡ true
unfolding is_connected Session.is_alive
joined_connected = refl

-- A world in which every file can be read.
abbrev reader : Client Bool
reader = record joined { world = record quiet { files = λ path. some (codes "text") } }

abbrev app : App machine
app = record {
  server = record {
    acceptor = false;
    endpoint = record { address = 4; port = 1234 };
    request_handler = handle_request;
    accepting = 0;
    sessions = [];
    world = quiet;
  };
  client = joined;
  io_manager = io_manager;
  world = quiet;
}

server_start_command : command "server_start" ≡ server_start
unfolding command
server_start_command = refl

console_eof_example : HasLooped machine 100 app (console machine "0.0.0.0" 1234 100 [] app)
console_eof_example = console_eof machine "0.0.0.0" 1234 100 app
