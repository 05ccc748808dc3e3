-- ===== src/Tests/Endings.antt =====
-- Sessions that are stopped, conversations, and the exception of a session.
use micro_tcp.Common.{
  List, ℕ, ◌^◌, ◌<◌, ◌≤◌, Bool, false, [], ◌∷◌, ◌≡◌, ◌≢◌, ◌⊎◌, refl, Bytes, codes, length, arith,
  throw, length_error, All,
}
use micro_tcp.Message.{Message, default_message}
use micro_tcp.Handlers.{example_handlers}
use micro_tcp.Session.{
  server, Operation, async_handshake, async_read_header, async_read_content, async_write_header,
  async_write_content, async_shutdown, async_write_null, async_wait, Session, stop,
}
use micro_tcp.Session.Completion.{complete, read_header_done, fill}
use micro_tcp.Session.Ending.{Ends}
use micro_tcp.Session.Stopping.{Ending, here, then, settle, IsSettled, stop_ends, stop_settles}
use micro_tcp.Session.Conversation.{answers, converse, HasConversed, converse_lem}
use micro_tcp.Session.Throwing.{IsTooLong, throws_only}
use micro_tcp.Tests.Machine.{machine}
use micro_tcp.Tests.Messages.{minus_one, minus_one_throws}
use micro_tcp.Session.ServerSession
use micro_tcp.Tests.Sessions.{reversed, idle, waiting, idle_pending, waiting-IsWaiting}

abbrev requests : List Message
requests =
    record { header_buffer = []; content_buffer = codes "one" }
    ∷ record { header_buffer = []; content_buffer = codes "two" }
    ∷ []

short_answers : All (λ b. length b < 10 ^ 10) (answers reversed default_message requests)
unfolding answers
short_answers = (omega arith, (omega arith, tt))

short_requests : All (λ m. length m.content_buffer < 10 ^ 10) requests
short_requests = (omega arith, (omega arith, tt))

converse_lem_example :
    HasConversed machine reversed 0
      (answers reversed default_message requests)
      idle
      (converse machine reversed 0 requests idle waiting)
converse_lem_example =
    converse_lem machine reversed 0 requests idle waiting refl idle_pending waiting-IsWaiting
      short_requests short_answers

-- A read ends with an error, a shutdown as it pleases.
abbrev at_the_end : Operation → ℕ × Bytes
at_the_end op = (2, [])

Ends-at_the_end : (op : Operation) → Ends machine op (at_the_end op).0
Ends-at_the_end (async_handshake type) = refl
Ends-at_the_end (async_read_header n) = refl
Ends-at_the_end (async_read_content n) = refl
Ends-at_the_end (async_write_header b) = refl
Ends-at_the_end (async_write_content b) = refl
Ends-at_the_end async_shutdown = tt
Ends-at_the_end async_write_null = tt
Ends-at_the_end async_wait = tt

stop_settles_example :
    IsSettled machine example_handlers server
      (settle machine example_handlers server at_the_end 5 (stop machine waiting))
stop_settles_example =
    stop_settles machine example_handlers server at_the_end waiting Ends-at_the_end

-- A session that waited for a header, after it was stopped and the read was aborted.
abbrev aborted : Session Bool
aborted = record (stop machine waiting) {
  read_buffer = record default_message { header_buffer = fill [] default_message.header_buffer };
  pending = async_shutdown ∷ [];
}

waiting-aborted : Ending machine example_handlers server (stop machine waiting) 1 aborted
unfolding stop complete read_header_done
waiting-aborted = then here [] (async_shutdown ∷ []) (async_read_header 28) 1 [] refl refl refl

stop_ends_example : (1 ≤ 5) × ((machine.is_open aborted.socket ≡ false) ⊎ (aborted.pending ≢ []))
stop_ends_example = stop_ends machine example_handlers server waiting aborted 1 waiting-aborted

-- A session that reads the header of a message that announces minus one byte.
abbrev reading : Session Bool
reading = record waiting { read_buffer = minus_one; pending = [] }

reading_throws :
    complete machine example_handlers server
      (async_read_header 28)
      0
      minus_one.header_buffer
      reading
    ≡ throw length_error
unfolding complete read_header_done ServerSession.on_read_header
reading_throws = rw (minus_one_throws)

throws_only_example :
    (length_error ≡ length_error)
    × (machine.failed 0 ≡ false)
    × ((n : ℕ) × (async_read_header 28 ≡ async_read_header n))
    × IsTooLong machine
        (record minus_one { header_buffer = fill minus_one.header_buffer minus_one.header_buffer })
throws_only_example =
    throws_only machine example_handlers server (async_read_header 28) 0 minus_one.header_buffer
      reading length_error reading_throws
