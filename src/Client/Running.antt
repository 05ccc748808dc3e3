-- ===== src/Client/Running.antt =====
-- A client with all its sessions: its calls, the completions of its connections and those of its sessions,
-- also of those that it has let go, in any order.
use mathlib.Core.Path.{subst}
use micro_tcp.Common.{
  ℕ, suc, List, ◌∷◌, ◌++◌, Option, none, some, ◌≡◌, refl, ◌⊎◌, inl, inr, true, false, Bool-cases,
  All, All-append, All-split, String, Bool,
}
use micro_tcp.World.{World}
use micro_tcp.Platform.{Platform}
use micro_tcp.Handlers.{Handlers}
use micro_tcp.Message.{Message, default_message}
use micro_tcp.Files.{read_file}
use micro_tcp.Session
use micro_tcp.Session.ClientSession
use micro_tcp.Session.{Session}
use micro_tcp.Session.Completion.{Completes}
use micro_tcp.Session.Stopping.{IsClosing}
use micro_tcp.Session.Releasing.{IsClosing-stop, Completes-IsClosing}
use micro_tcp.Client.Calls.{All-release}
use micro_tcp.Client.{
  Client, client, connect, resolved, connected, disconnect, is_connected, send, send_file,
  send_read, release, on_held, alive,
}

module _ (p : Platform) (h : Handlers) where
  open p use {Socket, ErrorCode, failed}

  -- `connects` is where another connection could replace a session that is active: it is one only of a
  -- client that has none, or it fails. `elsewhere` is a change of the world by other code.
  pub data Event (c : Client Socket) : Client Socket → Type 0 where
    calls_connect : Event c (connect c)
    calls_disconnect : Event c (disconnect p c)
    calls_send : (m : Message) → Event c (send p m c).1
    calls_send_file : (path : String) → Event c (send_file p path c).1
    resolves : (n : ℕ) (ec : ErrorCode) → c.resolving ≡ suc n → Event c (resolved p ec c)
    connects :
        (n : ℕ) (ec : ErrorCode) (sock : Socket)
        → c.connecting ≡ suc n
        → (failed ec ≡ true) ⊎ (c.active_session ≡ none)
        → Event c (connected p ec sock c)
    answers :
        (x y : Session Socket)
        → c.active_session ≡ some x
        → Completes p h Session.client c.world x y
        → Event c (record c { active_session = some y; world = y.world })
    ends :
        (before after : List (Session Socket)) (x y : Session Socket)
        → c.detached ≡ before ++ x ∷ after
        → Completes p h Session.client c.world x y
        → Event c (record c { detached = release (some y) before ++ after; world = y.world })
    elsewhere : (w : World) → Event c (record c { world = w })

  pub data Run (c : Client Socket) : Client Socket → Type 0 where
    here : Run c c
    later : {d e : Client Socket} → Run c d → Event d e → Run c e

  -- Every session that the client has let go is closed, or goes on to close its socket.
  abbrev pub Releases : Client Socket → Type 0
  Releases c = All (IsClosing p h Session.client) c.detached

  -- `disconnect` of a client that is connected, and of one that is not: then the socket is closed.
  disconnect-stopped :
      (c : Client Socket) (o : Option (Session Socket))
      → c.active_session ≡ o
      → Releases c
      → All (IsClosing p h Session.client) (
          release
            (on_held p (Session.stop p) o c).active_session
            (on_held p (Session.stop p) o c).detached)
  disconnect-stopped c none e a = rw e a
  disconnect-stopped c (some s) e a =
      All-release (IsClosing p h Session.client) (Session.stop p (record s { world = c.world }))
        c.detached (IsClosing-stop p h Session.client (record s { world = c.world })) a

  disconnect-closed :
      (l : List (Session Socket)) (o : Option (Session Socket))
      → alive p o ≡ false
      → All (IsClosing p h Session.client) l
      → All (IsClosing p h Session.client) (release o l)
  unfolding Session.is_alive
  disconnect-closed l none e a = a
  disconnect-closed l (some s) e a = All-release (IsClosing p h Session.client) s l (inl e) a

  disconnect-Releases : (c : Client Socket) → Releases c → Releases (disconnect p c)
  unfolding disconnect is_connected
  disconnect-Releases c a = elim (Bool-cases (alive p c.active_session)) [
    | inl e ↦ rw e (disconnect-stopped c c.active_session refl a)
    | inr e ↦ rw e (disconnect-closed c.detached c.active_session e a)
  ]

  send-Releases : (m : Message) (c : Client Socket) → Releases c → Releases (send p m c).1
  unfolding send
  send-Releases m c a = elim (Bool-cases (is_connected p c)) [
    | inl e ↦ rw e (held c.active_session)
    | inr e ↦ rw e a
  ]
    where
      held : (o : Option (Session Socket)) → Releases (on_held p (ClientSession.send m) o c)
      held none = a
      held (some s) = a

  send_file-Releases :
      (path : String) (c : Client Socket) → Releases c → Releases (send_file p path c).1
  unfolding send_file
  send_file-Releases path c a = sent (read_file path default_message c.world)
    where
      sent : (x : Bool × Message × World) → Releases (send_read p c x).1
      sent (true, m, w) = send-Releases m (record c { world = w }) a
      sent (false, m, w) = a

  connected_failed :
      (ec : ErrorCode) (sock : Socket) (c : Client Socket)
      → failed ec ≡ true
      → Releases c
      → Releases (connected p ec sock c)
  unfolding connected
  connected_failed ec sock c bad a = elim (Bool-cases (p.is_connection_aborted ec)) [
    | inl e ↦ rw (bad, e) a
    | inr e ↦ rw (bad, e) a
  ]

  connected-Releases :
      (ec : ErrorCode) (sock : Socket) (c : Client Socket)
      → (failed ec ≡ true) ⊎ (c.active_session ≡ none)
      → Releases c
      → Releases (connected p ec sock c)
  unfolding connected
  connected-Releases ec sock c (inl bad) a = connected_failed ec sock c bad a
  connected-Releases ec sock c (inr alone) a = elim (Bool-cases (failed ec)) [
    | inl bad ↦ connected_failed ec sock c bad a
    | inr fine ↦ rw (fine, alone) a
  ]

  -- One of the sessions goes on, and is destroyed if nothing of it is pending any more.
  ends-Releases :
      (before after : List (Session Socket)) (x y : Session Socket)
      → (IsClosing p h Session.client x → IsClosing p h Session.client y)
      → All (IsClosing p h Session.client) (before ++ x ∷ after)
      → All (IsClosing p h Session.client) (release (some y) before ++ after)
  ends-Releases before after x y f a =
      let (b, (cx, c)) = All-split (IsClosing p h Session.client) before (x ∷ after) a in
      All-append _ (release (some y) before) after
        (All-release (IsClosing p h Session.client) y before (f cx) b, c)

  Event-Releases : {c d : Client Socket} → Event c d → Releases c → Releases d
  unfolding connect resolved
  Event-Releases calls_connect a = a
  Event-Releases {c} calls_disconnect a = disconnect-Releases c a
  Event-Releases {c} (calls_send m) a = send-Releases m c a
  Event-Releases {c} (calls_send_file path) a = send_file-Releases path c a
  Event-Releases {c} (resolves n ec e) a = elim (Bool-cases (failed ec)) [
    | inl bad ↦ rw bad a
    | inr fine ↦ rw fine a
  ]
  Event-Releases {c} (connects n ec sock e alone) a = connected-Releases ec sock c alone a
  Event-Releases (answers x y e done) a = a
  Event-Releases {c} (ends before after x y e done) a =
      ends-Releases before after x y (Completes-IsClosing p h Session.client c.world x y done)
        (subst (All (IsClosing p h Session.client)) e a)
  Event-Releases (elsewhere w) a = a

-- A client from its construction on, whatever it is asked to do and in whatever order its operations and
-- those of its sessions complete, with whatever error codes and bytes, also while `disconnect` has
-- left operations pending, as long as no connection is made while a session is active: every session
-- that the client has let go, and that is not destroyed, has a closed socket, or an operation pending
-- whose handler goes on to close it.
pub Run-Releases :
    (p : Platform) (h : Handlers) (w : World) {c : Client p.Socket}
    → Run p h (client w) c
    → Releases p h c
unfolding client
Run-Releases p h w here = tt
Run-Releases p h w (later run ev) = Event-Releases p h ev (Run-Releases p h w run)
