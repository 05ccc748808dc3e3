-- ===== src/Client/Misuse.antt =====
-- The client where its calls overlap: sends before the handshake, connects while connected, and
-- disconnects while a request is on its way.
use micro_tcp.Common.{
  ◌+◌, ◌*◌, length, true, false, [], ◌∷◌, ◌++◌, List, some, ◌≡◌, refl, ◌∙◌, ap, arith, Bytes,
}
use micro_tcp.Platform.{Platform}
use micro_tcp.Handlers.{Handlers}
use micro_tcp.Message.{Message}
use micro_tcp.Message.Header.{header_of, prepare_header_buffer_write-header}
use micro_tcp.Session.{
  Operation, async_handshake, async_write_header, Session, session, client, stop, is_alive,
}
use micro_tcp.Session.ClientSession
use micro_tcp.Session.Invariant.{IsOrderly}
use micro_tcp.Session.Ending.{Ends}
use micro_tcp.Session.Stopping.{settle, IsSettled, stop_settles}
use micro_tcp.Client.Calls.{disconnect_lem, disconnect-detached}
use micro_tcp.Client.{Client, connect, resolved, connected, is_connected, disconnect, send}

-- A client whose connection has just been made counts as connected before the handshake is over: `send`
-- answers true then, and its session has the write of the header of the message pending behind the
-- handshake, which is disorderly.
pub send_early :
    (p : Platform) (found ec : p.ErrorCode) (sock : p.Socket) (m : Message) (c : Client p.Socket)
    → p.failed found ≡ false
    → p.failed ec ≡ false
    → p.is_open sock ≡ true
    → let c' = connected p ec sock (resolved p found (connect c)) in
      (t : Session p.Socket) × (send p m c' ≡ (true, record c' { active_session = some t }))
      × (t.pending
          ≡ async_handshake client ∷ async_write_header (header_of (length m.content_buffer)) ∷ [])
      × (¬ IsOrderly p client t)
unfolding connect resolved connected send is_connected is_alive ClientSession.start
    ClientSession.send session
send_early p found ec sock m c f e o = (
  ClientSession.send m (ClientSession.start (session sock c.world)),
  ground arith,
  rw (prepare_header_buffer_write-header m) refl,
  λ x. x,
)

-- A connection that is made while the session that is active has an operation pending replaces this
-- session without stopping it: after `disconnect` the client counts as not connected, the new session
-- is stopped, and the former one lives on as it was, with its socket open and its operation pending.
pub reconnect_leaks :
    (p : Platform) (found ec : p.ErrorCode) (sock : p.Socket) (c : Client p.Socket)
    (s : Session p.Socket) (op : Operation) (ops : List Operation)
    → p.failed found ≡ false
    → p.failed ec ≡ false
    → p.is_open sock ≡ true
    → c.active_session ≡ some s
    → s.pending ≡ op ∷ ops
    → is_connected p c ≡ true
    → let c' = disconnect p (connected p ec sock (resolved p found (connect c))) in
      (is_connected p c' ≡ false)
      × (c'.detached
          ≡ (c.detached ++ s ∷ []) ++ stop p (ClientSession.start (session sock c.world)) ∷ [])
      × (p.is_open s.socket ≡ true)
unfolding connect resolved connected is_connected is_alive ClientSession.start session
reconnect_leaks p found ec sock c s op ops f e o a l k =
    let c' = connected p ec sock (resolved p found (connect c)) in
    let new = ClientSession.start (session sock c.world) in
    let active : c'.active_session ≡ some new = ground arith in
    let let_go : c'.detached ≡ c.detached ++ s ∷ [] = ground arith in
    let alive : is_connected p c' ≡ true = ground arith in
    let same_world : c'.world ≡ c.world = ground arith in
    (
      (disconnect_lem p c').0,
      disconnect-detached p c' new active alive
          ∙ ap (λ w. c'.detached ++ stop p (record new { world = w }) ∷ []) same_world
          ∙ ap (λ x. x ++ stop p new ∷ []) let_go,
      ground arith,
    )

-- A connected client may disconnect in any state of its session, also while a request or a response is
-- on its way: the session is let go stopped, and after the completion of what is pending, three
-- rounds for each operation that was pending and two more, its socket is closed and nothing is
-- pending, however the operations end.
pub disconnect_settles :
    (p : Platform) (h : Handlers) (end : Operation → p.ErrorCode × Bytes) (c : Client p.Socket)
    (s : Session p.Socket)
    → ((op : Operation) → Ends p op (end op).0)
    → c.active_session ≡ some s
    → is_connected p c ≡ true
    → ((disconnect p c).detached ≡ c.detached ++ stop p (record s { world = c.world }) ∷ [])
      × IsSettled p h client
          (settle p h client end (3 * length s.pending + 2) (stop p (record s { world = c.world })))
disconnect_settles p h end c s ends a l =
    (disconnect-detached p c s a l, stop_settles p h client end (record s { world = c.world }) ends)
