-- ===== src/Tests/Connections.antt =====
-- A client session and a server session with a connection between them.
use mathlib.Core.Path.{subst}
use mathlib.Core.List.{IsPrefix}
use micro_tcp.Common.{
  none, Bool, true, ◌^◌, ◌<◌, [], ◌∷◌, ◌++◌, ◌≡◌, refl, sym, Bytes, codes, length, take, drop,
  arith, All, inr,
}
use micro_tcp.Message.{
  Message, default_message, set_content_buffer, prepare_header_buffer_write,
  prepare_header_buffer_read, prepare_content_buffer_read, prepare_content_buffer_write,
  get_header_buffer_content_length,
}
use micro_tcp.Message.Header.{header_of}
use micro_tcp.Handlers.{Handlers, example_handlers, handle_request}
use micro_tcp.Session.{
  server, client, async_handshake, async_read_header, async_read_content, async_write_header,
  session, Session,
}
use micro_tcp.Session.ServerSession
use micro_tcp.Session.ClientSession
use micro_tcp.Session.Completion.{complete, handshake_done, read_header_done, write_header_done}
use micro_tcp.Session.Transfer.{framed}
use micro_tcp.Session.Conversation.{answers}
use micro_tcp.Network.Specification.{framings, contents}
use micro_tcp.Network.Progress.{IsIntact, HasConcluded}
use micro_tcp.Network.Handed.{Uses, handed_lem}
use micro_tcp.Network.Liveness.{Reach-HasConcluded}
use micro_tcp.Network.Delivery.{Reach-IsPrefix}
use micro_tcp.Network.{
  handed, Network, network, Reach, Stream, here, then, arrives_up, client_completes,
  server_completes, sends,
}
use micro_tcp.Tests.Machine.{machine, quiet}

abbrev greeting : Message
greeting = record { header_buffer = []; content_buffer = codes "hi" }

abbrev head : Bytes
head = header_of 2

abbrev stream : Bytes → Bytes → Stream
stream consumed arrived = record { consumed = consumed; arrived = arrived; unsent = [] }

-- The handshakes, a request that arrives in three pieces, and the completions up to the one that hands it to
-- the handler.
asked :
    (n : Network machine) × Reach machine example_handlers (network machine true true quiet quiet) n
    × (n.requests ≡ greeting ∷ [])
    × (n.handled ≡ framed (codes "hi") ∷ [])
    × IsIntact n
unfolding network session ClientSession.start ServerSession.start complete handshake_done
    ClientSession.on_secure_handshake ServerSession.on_secure_handshake ClientSession.send
    prepare_header_buffer_write micro_tcp.Stream.decimal micro_tcp.Stream.copy_in
    micro_tcp.Stream.put_number prepare_header_buffer_read write_header_done
    ClientSession.on_write_header prepare_content_buffer_write get_header_buffer_content_length
    micro_tcp.Stream.copy_out micro_tcp.Stream.get_number read_header_done
    ServerSession.on_read_header prepare_content_buffer_read
asked = (
  _,
  (then
      (then
        (then
          (then
            (then
              (then
                (then
                  (then
                    (then here (
                      client_completes [] [] (async_handshake client) 0 [] quiet _ _ refl
                        (refl, refl) refl))
                    (server_completes [] [] (async_handshake server) 0 [] quiet _ _ refl
                      (refl, refl) refl))
                  (sends greeting quiet refl refl))
                (arrives_up (take 5 head) (drop 5 head) refl))
              (arrives_up (drop 5 head) [] refl))
            (client_completes [] [] (async_write_header head) 0 [] quiet _ (stream [] head) refl
              (refl, (refl, refl, refl, inr refl)) refl))
          (server_completes [] [] (async_read_header 28) 0 head quiet
            (record { consumed = head; arrived = []; unsent = codes "hi" }) _ refl
            ((refl, refl, refl, inr refl), refl) refl))
        (arrives_up (codes "hi") [] refl))
      (server_completes [] [] (async_read_content 2) 0 (codes "hi") quiet
        (stream (head ++ codes "hi") []) _ refl ((refl, refl, refl, inr refl), refl) refl)),
  refl,
  refl,
  (refl, refl),
)

asked_small : All (λ m. length m.content_buffer < 10 ^ 10) asked.0.requests
asked_small =
    subst (λ ms. All (λ m. length m.content_buffer < 10 ^ 10) ms) (sym asked.2) (omega arith, tt)

answers_small :
    All (λ c. length c < 10 ^ 10) (answers example_handlers default_message asked.0.requests)
unfolding answers handle_request set_content_buffer prepare_header_buffer_write
answers_small =
    subst (λ ms. All (λ c. length c < 10 ^ 10) (answers example_handlers default_message ms))
      (sym asked.2) (omega arith, tt)

Reach-IsPrefix_example :
    IsPrefix asked.0.handled (framings (contents asked.0.requests))
    × IsPrefix asked.0.received
        (framings (answers example_handlers default_message asked.0.requests))
Reach-IsPrefix_example =
    Reach-IsPrefix machine example_handlers true true quiet quiet asked.1 asked_small answers_small

Reach-HasConcluded_example :
    (m : Network machine) × Reach machine example_handlers asked.0 m
    × IsIntact m
    × (m.requests ≡ asked.0.requests)
    × HasConcluded example_handlers m
Reach-HasConcluded_example =
    Reach-HasConcluded machine example_handlers 0 true true quiet quiet refl asked.1 asked.4
      (asked_small, answers_small)

-- A server's session reads a content; the two pairs of handlers differ in what a client's would do.
abbrev reading : Session Bool
reading = record {
  read_buffer = record { header_buffer = head; content_buffer = 0 ∷ 0 ∷ [] };
  write_buffer = default_message;
  socket = true;
  timeout = none;
  pending = [];
  world = quiet;
}

abbrev silent_handlers : Handlers
silent_handlers = record { handle_request = handle_request; handle_response = λ m w. w }

handed_lem_example :
    (complete machine example_handlers server (async_read_content 2) 0 (codes "hi") reading
      ≡ complete machine silent_handlers server (async_read_content 2) 0 (codes "hi") reading)
    × Uses server example_handlers reading
        (handed machine (async_read_content 2) 0 (codes "hi") reading)
        (complete machine example_handlers server (async_read_content 2) 0 (codes "hi") reading)
handed_lem_example =
    handed_lem machine example_handlers silent_handlers server (async_read_content 2) 0 (codes "hi")
      reading (refl, tt)
