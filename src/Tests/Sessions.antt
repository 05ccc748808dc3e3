-- ===== src/Tests/Sessions.antt =====
-- Sessions: service, exchanges, traces and closing.
use micro_tcp.Common.{
  ◌++◌, ℕ, ◌^◌, ◌<◌, Bool, true, [], ◌∷◌, ◌≡◌, refl, Bytes, codes, length, length-replicate, arith,
  ok, All,
}
use micro_tcp.Message.Header.{header_of}
use micro_tcp.Message.{
  set_content_buffer, prepare_header_buffer_write, message, set_content_buffer,
  prepare_header_buffer_write, default_message, prepare_header_buffer_read,
}
use micro_tcp.Handlers.{Handlers, example_handlers, handle_response}
use micro_tcp.Session.{
  async_write_header, server, client, async_read_header, async_handshake, Session, session,
}
use micro_tcp.Session.ServerSession
use micro_tcp.Session.ClientSession
use micro_tcp.Session.Completion.{complete, run, handshake_done}
use micro_tcp.Session.Invariant.{IsOrderly}
use micro_tcp.Session.Traces.{start, Reach, here, then, completes, Reach-IsOrderly, send_again}
use micro_tcp.Session.Closing.{IsClosed, failure_closes}
use micro_tcp.Session.Service.{HasAnswered, responses, rounds, server_serves, IsWaiting}
use micro_tcp.Session.Life.{server_lives}
use micro_tcp.Tests.Machine.{machine, quiet}

short : All (λ c. length c < 10 ^ 10) (codes "one" ∷ codes "two" ∷ [])
short = (omega arith, (omega arith, tt))

server_serves_example :
    HasAnswered machine
      (responses example_handlers default_message (codes "one" ∷ codes "two" ∷ []))
      (run machine example_handlers server
        ((0, []) ∷ rounds 0 (codes "one" ∷ codes "two" ∷ []))
        (ServerSession.start (session true quiet), []))
server_serves_example =
    server_serves machine example_handlers 0 (codes "one" ∷ codes "two" ∷ []) true quiet refl short

-- Two sessions behind their handshakes.
abbrev pub idle : Session Bool
idle = session true quiet

abbrev pub waiting : Session Bool
waiting = record {
  read_buffer = default_message;
  write_buffer = default_message;
  socket = true;
  timeout = idle.timeout;
  pending = async_read_header 28 ∷ [];
  world = quiet;
}

pub waiting-IsWaiting : IsWaiting waiting
unfolding default_message prepare_header_buffer_read
waiting-IsWaiting = (refl, length-replicate {A = ℕ} 28 0)

pub idle_pending : idle.pending ≡ []
unfolding session
idle_pending = refl

abbrev pub reversed : Handlers
reversed = record {
  handle_request = λ request response. record response { content_buffer = codes "done" };
  handle_response = handle_response;
}

message_content : (b : Bytes) → (message b).content_buffer ≡ b
unfolding message set_content_buffer prepare_header_buffer_write
message_content b = refl

start_pending : (start server (session true quiet)).pending ≡ async_handshake server ∷ []
unfolding ServerSession.start session
start_pending = refl

handshake_ok :
    (s : Session Bool)
    → complete machine example_handlers server (async_handshake server) 0 [] s
      ≡ ok (ServerSession.on_secure_handshake s)
unfolding complete handshake_done
handshake_ok s = refl

-- A server session whose handshake has succeeded.
greeted : Reach machine example_handlers server (start server (session true quiet)) (
    ServerSession.on_secure_handshake (record (start server (session true quiet)) { pending = [] }))
greeted = then here (completes [] [] (async_handshake server) 0 [] start_pending (handshake_ok _))

Reach-IsOrderly_example : IsOrderly machine server (
    ServerSession.on_secure_handshake (record (start server (session true quiet)) { pending = [] }))
Reach-IsOrderly_example = Reach-IsOrderly machine example_handlers server true quiet greeted

failure_closes_example :
    IsClosed machine example_handlers []
      (run machine example_handlers server ((2, []) ∷ (0, []) ∷ (0, []) ∷ []) (waiting, []))
failure_closes_example =
    failure_closes machine example_handlers server (async_read_header 28) waiting [] 2 0 0 [] [] []
      refl refl refl refl

-- Two requests, and the end of the stream.
server_lives_example :
    IsClosed machine example_handlers
      (responses example_handlers default_message (codes "one" ∷ codes "two" ∷ []))
      (run machine example_handlers server
        (((0, []) ∷ rounds 0 (codes "one" ∷ codes "two" ∷ [])) ++ (2, []) ∷ (2, []) ∷ (6, []) ∷ [])
        (ServerSession.start (session true quiet), []))
server_lives_example =
    server_lives machine example_handlers 0 (codes "one" ∷ codes "two" ∷ []) true quiet 2 2 6 [] []
      [] refl short refl refl

-- A client's session in its handshake.
abbrev shaking : Session Bool
shaking = record waiting { pending = async_handshake client ∷ [] }

send_again_example :
    let t =
      ClientSession.send (message (codes "b")) (ClientSession.send (message (codes "ab")) idle) in
    (t.pending ≡ async_write_header (header_of 2) ∷ async_write_header (header_of 1) ∷ [])
    × (t.write_buffer ≡ record (message (codes "b")) { header_buffer = header_of 1 })
    × (¬ IsOrderly machine client t)
unfolding session message set_content_buffer prepare_header_buffer_write
send_again_example = send_again machine idle (message (codes "ab")) (message (codes "b"))
