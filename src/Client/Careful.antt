-- ===== src/Client/Careful.antt =====
-- A client that is used as its session allows: `send` and `disconnect` are called only while nothing of the
-- active session is pending. What happens without this care is in Misuse.
use mathlib.Core.Path.{subst}
use micro_tcp.Common.{
  ℕ, suc, List, [], ◌∷◌, ◌++◌, Option, none, some, ◌≡◌, refl, inl, inr, Bool-cases, All, All-append,
  All-split,
}
use micro_tcp.World.{World}
use micro_tcp.Platform.{Platform}
use micro_tcp.Handlers.{Handlers}
use micro_tcp.Message.{Message}
use micro_tcp.Session
use micro_tcp.Session.ClientSession
use micro_tcp.Session.{Session, session}
use micro_tcp.Session.Completion.{Completes}
use micro_tcp.Session.Invariant.{IsOrderly}
use micro_tcp.Session.Traces
use micro_tcp.Session.Traces.{Reach-IsOrderly}
use micro_tcp.Client.Calls.{All-release}
use micro_tcp.Client.{
  Client, client, connect, resolved, connected, disconnect, is_connected, send, release, on_held,
}

module _ (p : Platform) (h : Handlers) where
  open p use {Socket, ErrorCode, failed}

  -- Nothing of the active session is pending, or there is none.
  abbrev pub IsIdle : Option (Session Socket) → Type 0
  IsIdle none = Unit
  IsIdle (some s) = s.pending ≡ []

  pub data Event (c : Client Socket) : Client Socket → Type 0 where
    calls_connect : Event c (connect c)
    calls_disconnect : IsIdle c.active_session → Event c (disconnect p c)
    calls_send : (m : Message) → IsIdle c.active_session → Event c (send p m c).1
    resolves : (n : ℕ) (ec : ErrorCode) → c.resolving ≡ suc n → Event c (resolved p ec c)
    connects :
        (n : ℕ) (ec : ErrorCode) (sock : Socket)
        → c.connecting ≡ suc n
        → Event c (connected p ec sock c)
    answers :
        (x y : Session Socket)
        → c.active_session ≡ some x
        → Completes p h Session.client c.world x y
        → Event c (record c { active_session = some y; world = y.world })
    ends :
        (before after : List (Session Socket)) (x y : Session Socket)
        → c.detached ≡ before ++ x ∷ after
        → Completes p h Session.client c.world x y
        → Event c (record c { detached = release (some y) before ++ after; world = y.world })
    elsewhere : (w : World) → Event c (record c { world = w })

  pub data Run (c : Client Socket) : Client Socket → Type 0 where
    here : Run c c
    later : {d e : Client Socket} → Run c d → Event d e → Run c e

  -- A state that a client session reaches from its start on some socket in some world.
  abbrev IsReached : Session Socket → Type 0
  IsReached x =
      (sock : Socket) × (w : World) × Traces.Reach p h Session.client
        (ClientSession.start (session sock w)) x

  abbrev IsActive : Option (Session Socket) → Type 0
  IsActive none = Unit
  IsActive (some s) = IsReached s

  abbrev IsCareful : Client Socket → Type 0
  IsCareful c = IsActive c.active_session × All IsReached c.detached

  IsReached-Step :
      (x y : Session Socket) (w : World)
      → Traces.Step p h Session.client (record x { world = w }) y
      → IsReached x
      → IsReached y
  IsReached-Step x y w st (sock, w0, path) =
      (sock, w0, Traces.then (Traces.then path (Traces.elsewhere w)) st)

  Completes-IsReached :
      (x y : Session Socket) (w : World)
      → Completes p h Session.client w x y
      → IsReached x
      → IsReached y
  Completes-IsReached x y w (first, rest, op, ec, bytes, e, g) =
      IsReached-Step x y w (Traces.completes first rest op ec bytes e g)

  released :
      (o : Option (Session Socket)) (l : List (Session Socket))
      → IsActive o
      → All IsReached l
      → All IsReached (release o l)
  released none l x a = a
  released (some s) l x a = All-release IsReached s l x a

  -- A call on an idle session.
  on_held-IsCareful :
      (f : Session Socket → Session Socket) (o : Option (Session Socket)) (c : Client Socket)
      → c.active_session ≡ o
      → IsIdle o
      → ((s : Session Socket) → s.pending ≡ [] → Traces.Step p h Session.client s (f s))
      → IsCareful c
      → IsCareful (on_held p f o c)
  on_held-IsCareful f none c e idle st v = v
  on_held-IsCareful f (some s) c e idle st (x, a) =
      (IsReached-Step s _ c.world (st _ idle) (subst IsActive e x), a)

  disconnect-IsCareful :
      (c : Client Socket) → IsIdle c.active_session → IsCareful c → IsCareful (disconnect p c)
  unfolding disconnect
  disconnect-IsCareful c idle v = elim (Bool-cases (is_connected p c)) [
    | inl e ↦ rw e (
        let_go (on_held p (Session.stop p) c.active_session c) (
          on_held-IsCareful (Session.stop p) c.active_session c refl idle
            (λ s i. Traces.stops refl i) v))
    | inr e ↦ rw e (let_go c v)
  ]
    where
      let_go :
          (d : Client Socket)
          → IsCareful d
          → IsCareful
              (record d { active_session = none; detached = release d.active_session d.detached })
      let_go d (x, a) = (tt, released d.active_session d.detached x a)

  send-IsCareful :
      (m : Message) (c : Client Socket)
      → IsIdle c.active_session
      → IsCareful c
      → IsCareful (send p m c).1
  unfolding send
  send-IsCareful m c idle v = elim (Bool-cases (is_connected p c)) [
    | inl e ↦ rw e (
        on_held-IsCareful (ClientSession.send m) c.active_session c refl idle
          (λ s i. Traces.sends m refl i) v)
    | inr e ↦ rw e v
  ]

  connected-IsCareful :
      (ec : ErrorCode) (sock : Socket) (c : Client Socket)
      → IsCareful c
      → IsCareful (connected p ec sock c)
  unfolding connected
  connected-IsCareful ec sock c (x, a) = elim (Bool-cases (failed ec)) [
    | inl bad ↦ elim (Bool-cases (p.is_connection_aborted ec)) [
      | inl e ↦ rw (bad, e) (x, a)
      | inr e ↦ rw (bad, e) (x, a)
    ]
    | inr fine ↦ rw fine ((sock, c.world, Traces.here), released c.active_session c.detached x a)
  ]

  ends-IsCareful :
      (before after : List (Session Socket)) (x y : Session Socket)
      → (IsReached x → IsReached y)
      → All IsReached (before ++ x ∷ after)
      → All IsReached (release (some y) before ++ after)
  ends-IsCareful before after x y f a =
      let (b, (cx, c)) = All-split IsReached before (x ∷ after) a in
      All-append _ (release (some y) before) after (All-release IsReached y before (f cx) b, c)

  Event-IsCareful : {c d : Client Socket} → Event c d → IsCareful c → IsCareful d
  unfolding connect resolved
  Event-IsCareful calls_connect v = v
  Event-IsCareful {c} (calls_disconnect idle) v = disconnect-IsCareful c idle v
  Event-IsCareful {c} (calls_send m idle) v = send-IsCareful m c idle v
  Event-IsCareful {c} (resolves n ec e) v = elim (Bool-cases (failed ec)) [
    | inl bad ↦ rw bad v
    | inr fine ↦ rw fine v
  ]
  Event-IsCareful {c} (connects n ec sock e) v = connected-IsCareful ec sock c v
  Event-IsCareful {c} (answers x y e done) (active, a) =
      (Completes-IsReached x y c.world done (subst IsActive e active), a)
  Event-IsCareful {c} (ends before after x y e done) (active, a) = (
    active,
    ends-IsCareful before after x y (Completes-IsReached x y c.world done)
        (subst (All IsReached) e a),
  )
  Event-IsCareful (elsewhere w) v = v

  -- The active session is orderly, and so are those that the client has let go.
  abbrev pub ActiveIsOrderly : Option (Session Socket) → Type 0
  ActiveIsOrderly none = Unit
  ActiveIsOrderly (some s) = IsOrderly p Session.client s

  All-IsOrderly : (l : List (Session Socket)) → All IsReached l → All (IsOrderly p Session.client) l
  All-IsOrderly [] a = tt
  All-IsOrderly (x ∷ l) ((sock, w, path), a) =
      (Reach-IsOrderly p h Session.client sock w path, All-IsOrderly l a)

  active-IsOrderly : (o : Option (Session Socket)) → IsActive o → ActiveIsOrderly o
  active-IsOrderly none x = tt
  active-IsOrderly (some s) (sock, w, path) = Reach-IsOrderly p h Session.client sock w path

  Run-IsCareful : (w : World) {c : Client Socket} → Run (client w) c → IsCareful c
  unfolding client
  Run-IsCareful w here = (tt, tt)
  Run-IsCareful w (later run ev) = Event-IsCareful ev (Run-IsCareful w run)

-- A client from its construction on, whatever connections it makes and in whatever order its operations and
-- those of its sessions complete, with whatever error codes and bytes, if send and disconnect are
-- called only while nothing of its active session is pending: its active session and those that it has
-- let go are orderly, so that each has at most one operation pending, whose buffer fits it.
pub Run-IsOrderly :
    (p : Platform) (h : Handlers) (w : World) {c : Client p.Socket}
    → Run p h (client w) c
    → ActiveIsOrderly p h c.active_session × All (IsOrderly p Session.client) c.detached
Run-IsOrderly p h w {c} run =
    let (active, a) = Run-IsCareful p h w run in
    (active-IsOrderly p h c.active_session active, All-IsOrderly p h c.detached a)
