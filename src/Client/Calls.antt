-- ===== src/Client/Calls.antt =====
-- The calls of a client: when it is connected, what it sends, and how it lets go.
use micro_tcp.Common.{
  All, All-append, List, List-cases, inl, inr, ◌≢◌, true, false, [], ◌∷◌, ◌++◌, none, some, ◌≡◌,
  refl, String, if◌then◌else◌, arith, Bytes, ap,
}
use micro_tcp.Platform.{Platform}
use micro_tcp.Session.Ending.{will_close, stop-cost}
use micro_tcp.Handlers.{Handlers}
use micro_tcp.Message.{Message, default_message}
use micro_tcp.Files.{read_file, read_file_lem}
use micro_tcp.Session.{Operation, Session, session, client, stop}
use micro_tcp.Session.ClientSession
use micro_tcp.Session.Completion.{run}
use micro_tcp.Session.Transfer.{frame}
use micro_tcp.Session.Service.{HasAnswered}
use micro_tcp.Session.Exchange.{request_sent, requested-IsWaiting}
use micro_tcp.Session.Closing.{IsClosed, stop_closes}
use micro_tcp.Client.{
  Client, connect, resolved, connected, is_connected, disconnect, send, send_file, release,
  on_active, send_read,
}

-- A connection from the call of connect on, where the resolver finds the host: both operations are
-- completed; if the connection is made, its session is the active one and begins its handshake, the
-- session that was active is let go without being stopped, and the client is connected if the
-- socket is open; if not, the active session is the same, and so is whether the client is
-- connected.
pub connect_lem :
    (p : Platform) (found ec : p.ErrorCode) (sock : p.Socket) (c : Client p.Socket)
    → p.failed found ≡ false
    → let c' = connected p ec sock (resolved p found (connect c)) in
      (c'.resolving ≡ c.resolving)
      × (c'.connecting ≡ c.connecting)
      × (c'.active_session ≡ (
          if p.failed ec
          then c.active_session
          else some (ClientSession.start (session sock c.world))))
      × (c'.detached ≡ (if p.failed ec then c.detached else release c.active_session c.detached))
      × (is_connected p c' ≡ (if p.failed ec then is_connected p c else p.is_open sock))
unfolding connect resolved connected is_connected ClientSession.start session
connect_lem p found ec sock c e = ground arith

-- A failed connection or resolution leaves the active session as it is.
pub connect_failed :
    (p : Platform) (ec : p.ErrorCode) (sock : p.Socket) (c : Client p.Socket)
    → p.failed ec ≡ true
    → ((connected p ec sock c).active_session ≡ c.active_session)
      × ((resolved p ec (connect c)).active_session ≡ c.active_session)
      × ((resolved p ec (connect c)).connecting ≡ c.connecting)
      × ((resolved p ec (connect c)).resolving ≡ c.resolving)
unfolding connected resolved connect
connect_failed p ec sock c e = ground arith

-- `disconnect` leaves the client unconnected, whatever state it was in, and the session that was
-- active is let go: it is stopped first if its socket is open.
pub disconnect_lem :
    (p : Platform) (c : Client p.Socket)
    → let c' = disconnect p c in
      (is_connected p c' ≡ false)
      × (c'.detached ≡ (
          if is_connected p c
          then release (on_active p (stop p) c).active_session c.detached
          else release c.active_session c.detached))
unfolding disconnect is_connected
disconnect_lem p c = ground arith

release-kept :
    {S : Type 0} (s : Session S) (l : List (Session S))
    → s.pending ≢ []
    → release (some s) l ≡ l ++ s ∷ []
release-kept s l h = elim (List-cases s.pending) [
  | inl e ↦ absurd (h e)
  | inr (op, ops, e) ↦ simp e refl
]

-- What holds of the session that is let go, and of those before, holds of those that are left.
pub All-release :
    {S : Type 0} (P : Session S → Type 0) (s : Session S) (l : List (Session S))
    → P s
    → All P l
    → All P (release (some s) l)
All-release P s l x all = kept s.pending
  where
    kept : (ops : List Operation) → All P (elim ops [ [] ↦ l | op ∷ ops' ↦ l ++ s ∷ [] ])
    kept [] = all
    kept (op ∷ ops) = All-append P l (s ∷ []) (all, (x, tt))

-- The session that a connected client lets go is kept alive by its shutdown.
pub disconnect-detached :
    (p : Platform) (c : Client p.Socket) (s : Session p.Socket)
    → c.active_session ≡ some s
    → is_connected p c ≡ true
    → (disconnect p c).detached ≡ c.detached ++ stop p (record s { world = c.world }) ∷ []
unfolding disconnect will_close
disconnect-detached p c s a l =
    let kept =
      release-kept (stop p (record s { world = c.world })) c.detached
        (λ nil. cc ((stop-cost p (record s { world = c.world })).1, ap will_close nil)) in
    rw (l, a) kept

-- An idle connected session that is disconnected closes its socket: its completions, with whatever
-- error codes, end with the socket closed, nothing pending and nothing sent.
pub disconnect_closes :
    (p : Platform) (h : Handlers) (c : Client p.Socket) (s : Session p.Socket) (e1 e2 : p.ErrorCode)
    → c.active_session ≡ some s
    → is_connected p c ≡ true
    → s.pending ≡ []
    → ((disconnect p c).detached ≡ c.detached ++ stop p (record s { world = c.world }) ∷ [])
      × IsClosed p h []
          (run p h client ((e1, []) ∷ (e2, []) ∷ []) (stop p (record s { world = c.world }), []))
disconnect_closes p h c s e1 e2 a l idle = (
  disconnect-detached p c s a l,
  stop_closes p h client (record s { world = c.world }) [] e1 e2 [] [] idle,
)

-- `send` and `send_file` on a client that is not connected answer false and leave the session.
pub send_unconnected :
    (p : Platform) (m : Message) (path : String) (c : Client p.Socket)
    → is_connected p c ≡ false
    → (send p m c ≡ (false, c))
      × ((send_file p path c).0 ≡ false)
      × ((send_file p path c).1.active_session ≡ c.active_session)
unfolding send_file send is_connected read_file
send_unconnected p m path c l = ground arith

-- `send_file` of a file that can be read does what `send` does with a message of that content and
-- the header buffer of a default message, on any client.
pub send_file_lem :
    (p : Platform) (path : String) (c : Client p.Socket) (b : Bytes)
    → c.world.files path ≡ some b
    → send_file p path c ≡ send p (record default_message { content_buffer = b }) c
unfolding send_file
send_file_lem p path c b e = ap (send_read p c) (read_file_lem path default_message c.world b e)

-- A file that cannot be read is not sent: the answer is false and the session is as it was.
pub send_file_unread :
    (p : Platform) (path : String) (c : Client p.Socket)
    → c.world.files path ≡ none
    → ((send_file p path c).0 ≡ false) × ((send_file p path c).1.active_session ≡ c.active_session)
unfolding send_file read_file
send_file_unread p path c e = rw e (refl, refl)

-- `send` on a connected client whose session is idle answers true; when the two writes that it leads
-- to complete without errors, the run returns, the bytes sent are the header and the content of the
-- message, which may be of any size, and the session waits for the header of the response.
pub send_transmits :
    (p : Platform) (h : Handlers) (fine : p.ErrorCode) (m : Message) (c : Client p.Socket)
    (s : Session p.Socket)
    → p.failed fine ≡ false
    → c.active_session ≡ some s
    → is_connected p c ≡ true
    → s.pending ≡ []
    → (t : Session p.Socket) × (send p m c ≡ (true, record c { active_session = some t }))
      × HasAnswered p
          (frame m.content_buffer)
          (run p h client ((fine, []) ∷ (fine, []) ∷ []) (t, []))
unfolding send ClientSession.send
send_transmits p h fine m c s succeeds a l idle =
    let here = record s { world = c.world } in
    (
      ClientSession.send m here,
      ground arith,
      rw (request_sent p h fine succeeds here m [] idle)
          (refl, requested-IsWaiting p h fine succeeds here m),
    )
