-- ===== src/Tests/Running.antt =====
-- A server that accepts a connection, and a client that overlaps its calls.
use micro_tcp.Common.{
  ℕ, Bool, true, false, [], ◌∷◌, inl, some, ◌≡◌, refl, codes, length, replicate, length-replicate,
  arith, ◌>>=◌,
}
use micro_tcp.Message.Header.{header_of}
use micro_tcp.Message.{message}
use micro_tcp.Handlers.{example_handlers}
use micro_tcp.Session.{
  async_handshake, async_write_header, async_read_header, Session, session, client, stop, is_alive,
}
use micro_tcp.Session.ClientSession
use micro_tcp.Session.Completion.{run}
use micro_tcp.Session.Exchange.{answer}
use micro_tcp.Session.Invariant.{IsOrderly}
use micro_tcp.Server.{ServerOf, server, start, start_listening, attempt, accepted}
use micro_tcp.Server.Accepting.{starts, accepts}
use micro_tcp.Server.Running.{Run, here, later, serves, IsSound, Run-IsSound}
use micro_tcp.Client.{
  Client, connect, resolved, connected, is_connected, disconnect, send, send_file,
}
use micro_tcp.Client.Misuse.{send_early, reconnect_leaks}
use micro_tcp.Client.Echo.{HasEchoed, send_file_echoes}
use micro_tcp.Tests.Machine.{machine, quiet}
use micro_tcp.Tests.Sessions.{idle, waiting, idle_pending, waiting-IsWaiting}

abbrev fresh : ServerOf machine
fresh = server machine (record { address = 4; port = 1234 }) example_handlers.handle_request quiet

-- The server is started and accepts a connection.
abbrev busy : ServerOf machine
busy = accepted machine 0 true (record (start machine fresh) { accepting = 0 })

busy-Run : Run machine example_handlers fresh busy
unfolding server start start_listening attempt
busy-Run = later (later here (serves (starts (inl refl)))) (serves (accepts 0 0 true refl))

Run-IsSound_example : IsSound machine example_handlers busy
Run-IsSound_example =
    Run-IsSound machine example_handlers (record { address = 4; port = 1234 }) quiet busy-Run

-- A client that has an idle session, in a world where every file holds 10001 bytes.
abbrev joined : Client Bool
joined = record {
  active_session = some idle;
  detached = [];
  resolving = 0;
  connecting = 0;
  world = record quiet { files = λ path. some (replicate 10001 65) };
}

joined_connected : is_connected machine joined ≡ true
unfolding is_connected is_alive session
joined_connected = refl

length-large : length (replicate {A = ℕ} 10001 65) ≡ 10001
length-large = length-replicate {A = ℕ} 10001 65

send_early_example :
    (t : Session Bool) × (send machine
        (message (codes "hi"))
        (connected machine 0 true (resolved machine 0 (connect joined)))
      ≡ (
        true,
        record (connected machine 0 true (resolved machine 0 (connect joined))) {
          active_session = some t;
        },
      ))
    × (t.pending
        ≡ async_handshake client
          ∷ async_write_header (header_of (length (message (codes "hi")).content_buffer))
          ∷ [])
    × (¬ IsOrderly machine client t)
send_early_example = send_early machine 0 0 true (message (codes "hi")) joined refl refl refl

-- The client waits for the response to a request, and connects again.
abbrev asking : Session Bool
asking = record idle { pending = async_read_header 28 ∷ [] }

abbrev rejoined : Client Bool
rejoined = record joined { active_session = some asking }

rejoined_connected : is_connected machine rejoined ≡ true
unfolding is_connected is_alive session
rejoined_connected = refl

reconnect_leaks_example :
    (is_connected machine
        (disconnect machine (connected machine 0 true (resolved machine 0 (connect rejoined))))
      ≡ false)
    × ((disconnect machine
          (connected machine 0 true (resolved machine 0 (connect rejoined)))).detached
        ≡ asking ∷ stop machine (ClientSession.start (session true rejoined.world)) ∷ [])
    × (machine.is_open asking.socket ≡ true)
reconnect_leaks_example =
    reconnect_leaks machine 0 0 true rejoined asking (async_read_header 28) [] refl refl refl refl
      refl rejoined_connected

send_file_echoes_example :
    (t : Session Bool) × (send_file machine "a" joined
      ≡ (true, record joined { active_session = some t }))
    × HasEchoed machine (replicate 10001 65) (
        run machine example_handlers client ((0, []) ∷ (0, []) ∷ []) (t, [])
        >>= answer machine example_handlers 0 waiting)
unfolding session
send_file_echoes_example =
    send_file_echoes machine 0 "a" (replicate 10001 65) joined idle waiting refl refl refl
      joined_connected idle_pending refl waiting-IsWaiting (omega (arith, length-large))
      (omega (arith, length-large))
