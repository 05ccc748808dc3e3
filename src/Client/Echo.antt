-- ===== src/Client/Echo.antt =====
-- A file that goes from the client through the echoing server and back: `client::send_file`, the two
-- sessions, and the example handlers.
use micro_tcp.Common.{
  ◌^◌, ◌<◌, [], ◌∷◌, some, ◌≡◌, refl, true, false, String, Result, ok, throw, ◌>>=◌, Bytes, length,
  arith,
}
use micro_tcp.Platform.{Platform}
use micro_tcp.World.{is_empty}
use micro_tcp.Message.{
  Message, default_message, prepare_header_buffer_write, set_content_buffer, clear,
}
use micro_tcp.Handlers.{example_handlers, handle_request, handle_response_large}
use micro_tcp.Session.{client, debug, Session}
use micro_tcp.Session.ClientSession
use micro_tcp.Session.Completion.{run}
use micro_tcp.Session.Transfer.{framed}
use micro_tcp.Session.Service.{IsWaiting, served, served-IsWaiting}
use micro_tcp.Session.Exchange.{answer, exchange, exchange_lem, concluded}
use micro_tcp.Client.{Client, is_connected, send, send_file}
use micro_tcp.Client.Calls.{send_file_lem}

-- The run returns; the client's file test.out holds these bytes, its session is idle, and the server's
-- session waits for the next request.
abbrev pub HasEchoed :
    (p : Platform) → Bytes → Result (Session p.Socket × Session p.Socket) → Type 0
HasEchoed p bytes (ok (c, v)) =
    (c.world.files "test.out" ≡ some bytes) × (c.pending ≡ []) × IsWaiting v
HasEchoed p bytes (throw e) = ⊥

concluded-HasEchoed :
    (p : Platform) (m : Message) (c v : Session p.Socket) (bytes : Bytes)
    → 10000 < length bytes
    → c.world.is_writable "test.out" ≡ true
    → HasEchoed p bytes
        (ok (concluded p example_handlers c m bytes, served p example_handlers v m.content_buffer))
unfolding ClientSession.on_read_content ClientSession.on_write_content ClientSession.send debug
    clear is_empty
concluded-HasEchoed p m c v bytes lt e = (
  (handle_response_large (framed bytes) "" _ lt e refl).0,
  refl,
  served-IsWaiting p example_handlers v m.content_buffer,
)

exchange-HasEchoed :
    (p : Platform) (fine : p.ErrorCode) (m : Message) (c v : Session p.Socket)
    → p.failed fine ≡ false
    → c.pending ≡ []
    → IsWaiting v
    → 10000 < length m.content_buffer
    → length m.content_buffer < 10 ^ 10
    → c.world.is_writable "test.out" ≡ true
    → HasEchoed p m.content_buffer (exchange p example_handlers fine m c v)
unfolding handle_request set_content_buffer prepare_header_buffer_write
exchange-HasEchoed p fine m c v succeeds idle w large lt e =
    rw (exchange_lem p example_handlers fine succeeds m c v idle w lt lt)
      (concluded-HasEchoed p m c v m.content_buffer large e)

-- `send_file` of a file with more than 10000 and less than 10^10 bytes, on a connected client whose
-- session is idle, over a connection without errors to a session of a server with the echoing
-- handler that waits for a request: it answers true, and after the completions of the request and of
-- the response, where test.out can be written, test.out holds the bytes of the file.
pub send_file_echoes :
    (p : Platform) (fine : p.ErrorCode) (path : String) (bytes : Bytes) (c : Client p.Socket)
    (s v : Session p.Socket)
    → p.failed fine ≡ false
    → c.world.files path ≡ some bytes
    → c.active_session ≡ some s
    → is_connected p c ≡ true
    → s.pending ≡ []
    → c.world.is_writable "test.out" ≡ true
    → IsWaiting v
    → 10000 < length bytes
    → length bytes < 10 ^ 10
    → (t : Session p.Socket) × (send_file p path c ≡ (true, record c { active_session = some t }))
      × HasEchoed p bytes (
          run p example_handlers client ((fine, []) ∷ (fine, []) ∷ []) (t, [])
          >>= answer p example_handlers fine v)
unfolding exchange send ClientSession.send
send_file_echoes p fine path bytes c s v succeeds read active connected idle writable w large lt =
    let m : Message = record default_message { content_buffer = bytes } in
    let here = record s { world = c.world } in
    (
      ClientSession.send m here,
      rw (send_file_lem p path c bytes read) (ground arith),
      exchange-HasEchoed p fine m here v succeeds idle w large lt writable,
    )
