-- ===== src/Server/Running.antt =====
-- A server with its sessions: the events of the server, and the completions of all its sessions in any
-- order. The sessions run on the threads of the manager, each in its strand; what they share is the
-- world, which a completion takes over from the one before it.
use mathlib.Core.Path.{subst}
use micro_tcp.Common.{
  ℕ, List, [], ◌∷◌, ◌++◌, ◌⊎◌, ◌≡◌, refl, ◌∙◌, ok, Bytes, All, All-append, arith, inl, inr,
  Bool-cases,
}
use micro_tcp.Platform.{Platform, Endpoint}
use micro_tcp.World.{World}
use micro_tcp.Message.{Message}
use micro_tcp.Handlers.{Handlers}
use micro_tcp.Session.{Session, session, Operation}
use micro_tcp.Session
use micro_tcp.Session.ServerSession
use micro_tcp.Session.Completion.{complete}
use micro_tcp.Session.Invariant.{IsOrderly}
use micro_tcp.Session.Traces
use micro_tcp.Session.Traces.{Reach-IsOrderly}
use micro_tcp.Server.{
  start, ServerOf, server, is_listening, stop, accepted, set_address, set_endpoint, set_port,
  set_request_handler,
}
use micro_tcp.Server.Accepting.{
  Step, accepts, stops, starts, sets_address, sets_endpoint, sets_port, start_lem,
  start_listening_again, HasOneAccept, Step-HasOneAccept, server-HasOneAccept,
}

module _ (p : Platform) (h : Handlers) where
  open p use {Socket, ErrorCode}

  -- An event of the server, or the completion of a pending operation of one of its sessions.
  pub data Event (s : ServerOf p) : ServerOf p → Type 0 where
    serves : {t : ServerOf p} → Step p s t → Event s t
    changes_handler : (g : Message → Message → Message) → Event s (set_request_handler p g s).1
    completes :
        (before after : List (Session Socket)) (x : Session Socket) {y : Session Socket}
        (first rest : List Operation) (op : Operation) (ec : ErrorCode) (bytes : Bytes)
        → s.sessions ≡ before ++ x ∷ after
        → x.pending ≡ first ++ op ∷ rest
        → complete p
            (record { handle_request = s.request_handler; handle_response = h.handle_response })
            Session.server
            op
            ec
            bytes
            (record x { pending = first ++ rest; world = s.world })
          ≡ ok y
        → Event s (record s { sessions = before ++ y ∷ after; world = y.world })

  pub data Run (s : ServerOf p) : ServerOf p → Type 0 where
    here : Run s s
    later : {t u : ServerOf p} → Run s t → Event t u → Run s u

  -- A state that a session reaches by itself, from its start on some socket in some world.
  abbrev pub IsAlone : Session Socket → Type 0
  IsAlone x =
      (sock : Socket) × (w : World) × Traces.Reach p h Session.server
        (ServerSession.start (session sock w)) x

module _ (p : Platform) where
  open p use {Socket}

  -- What an event of the server does to its sessions: at most one is started.
  abbrev pub Keeps : ServerOf p → ServerOf p → Type 0
  Keeps s t =
      (t.request_handler ≡ s.request_handler)
      × ((t.sessions ≡ s.sessions)
          ⊎ ((sock : Socket) × (w : World) × (t.sessions
                ≡ s.sessions ++ ServerSession.start (session sock w) ∷ [])))

  pub accepted-Keeps :
      (n : ℕ) (ec : p.ErrorCode) (sock : Socket) (s : ServerOf p)
      → Keeps s (accepted p ec sock (record s { accepting = n }))
  unfolding accepted
  accepted-Keeps n ec sock s = elim (Bool-cases (p.acceptor_is_open s.acceptor)) [
    | inl l ↦ elim (Bool-cases (p.failed ec)) [
      | inl bad ↦ rw (l, bad) (ground arith, inl (ground arith))
      | inr fine ↦ rw (l, fine) (refl, inr (sock, s.world, refl))
    ]
    | inr l ↦ rw l (refl, inl refl)
  ]

  pub start-Keeps : (s : ServerOf p) → Keeps s (start p s)
  start-Keeps s = elim (Bool-cases (is_listening p s)) [
    | inl l ↦ rw (start_listening_again p s l) (refl, inl refl)
    | inr l ↦ let started = start_lem p s l in (started.3, inl started.4)
  ]

  pub Step-Keeps : {s t : ServerOf p} → Step p s t → Keeps s t
  unfolding set_address set_endpoint set_port stop
  Step-Keeps {s} (accepts n ec sock e) = accepted-Keeps n ec sock s
  Step-Keeps {s} {t} (stops e) = ground arith
  Step-Keeps {s} (starts when) = start-Keeps s
  Step-Keeps {s} (sets_address a) = ground arith
  Step-Keeps {s} (sets_endpoint e) = ground arith
  Step-Keeps {s} {t} (sets_port port b e) = ground arith

  set_request_handler-Keeps :
      (g : Message → Message → Message) (s : ServerOf p) → Keeps s (set_request_handler p g s).1
  unfolding set_request_handler
  set_request_handler-Keeps g s = ground arith

  set_request_handler-HasOneAccept :
      (g : Message → Message → Message) (s : ServerOf p)
      → HasOneAccept p s
      → HasOneAccept p (set_request_handler p g s).1
  unfolding is_listening set_request_handler
  set_request_handler-HasOneAccept g s v = ground arith

  HasOneAccept-shared :
      (s : ServerOf p) (l : List (Session Socket)) (w : World)
      → HasOneAccept p s
      → HasOneAccept p (record s { sessions = l; world = w })
  unfolding is_listening
  HasOneAccept-shared s l w v = record { at_most = v.at_most; exactly = v.exactly }

module _ (p : Platform) (h : Handlers) where
  open p use {Socket, ErrorCode}

  -- The sessions of the server use the handler that it was made with, each is in a state that it
  -- reaches by itself, and the accepts are as the server needs them.
  pub record IsSound (s : ServerOf p) : Type 0 where
    pub handler : s.request_handler ≡ h.handle_request
    pub alone : All (IsAlone p h) s.sessions
    pub accepts : HasOneAccept p s

  pub Keeps-IsAlone :
      (s t : ServerOf p) → Keeps p s t → All (IsAlone p h) s.sessions → All (IsAlone p h) t.sessions
  Keeps-IsAlone s t (_, inl e) a = rw e a
  Keeps-IsAlone s t (_, inr (sock, w, e)) a =
      rw e (All-append (IsAlone p h) s.sessions _ (a, ((sock, w, Traces.here), tt)))

  -- One session goes on by itself: it finds the world as the others left it, and completes.
  pub IsAlone-completes :
      (x y : Session Socket) (w : World) (first rest : List Operation) (op : Operation)
      (ec : ErrorCode) (bytes : Bytes)
      → x.pending ≡ first ++ op ∷ rest
      → complete p h Session.server op ec bytes (record x { pending = first ++ rest; world = w })
        ≡ ok y
      → IsAlone p h x
      → IsAlone p h y
  IsAlone-completes x y w first rest op ec bytes e g (sock, w0, path) = (
    sock,
    w0,
    Traces.then (Traces.then path (Traces.elsewhere w))
        (Traces.completes first rest op ec bytes e g),
  )

  pub All-middle :
      (before after : List (Session Socket)) (x y : Session Socket)
      → (IsAlone p h x → IsAlone p h y)
      → All (IsAlone p h) (before ++ x ∷ after)
      → All (IsAlone p h) (before ++ y ∷ after)
  All-middle [] after x y f (a, b) = (f a, b)
  All-middle (z ∷ before) after x y f (a, b) = (a, All-middle before after x y f b)

  Event-IsSound : {s t : ServerOf p} → Event p h s t → IsSound s → IsSound t
  Event-IsSound {s} {t} (serves st) v = record {
    handler = (Step-Keeps p st).0 ∙ v.handler;
    alone = Keeps-IsAlone s t (Step-Keeps p st) v.alone;
    accepts = Step-HasOneAccept p st v.accepts;
  }
  Event-IsSound {s} (changes_handler g) v = record {
    handler = (set_request_handler-Keeps p g s).0 ∙ v.handler;
    alone = Keeps-IsAlone s (set_request_handler p g s).1 (set_request_handler-Keeps p g s) v.alone;
    accepts = set_request_handler-HasOneAccept p g s v.accepts;
  }
  Event-IsSound {s} (completes before after x {y} first rest op ec bytes m e g) v = record {
    handler = v.handler;
    alone =
        All-middle before after x y
          (IsAlone-completes x y s.world first rest op ec bytes e (
            subst
              (λ f.
                complete p (record { handle_request = f; handle_response = h.handle_response })
                  Session.server op ec bytes (record x { pending = first ++ rest; world = s.world })
                ≡ ok y)
              v.handler g))
          (subst (All (IsAlone p h)) m v.alone);
    accepts = HasOneAccept-shared p s (before ++ y ∷ after) y.world v.accepts;
  }

-- A server with all its sessions, from its construction on, whatever connections are accepted, in
-- whatever order the operations of its sessions complete and with whatever error codes and bytes, if
-- the server is not restarted while an accept is still pending: every session is in a state that a
-- server session reaches by itself, with the handler that the server was made with; and at most one
-- accept is pending, and exactly one while the server listens.
pub Run-IsSound :
    (p : Platform) (h : Handlers) (e : Endpoint p.Address) (w : World) {s : ServerOf p}
    → Run p h (server p e h.handle_request w) s
    → IsSound p h s
unfolding server
Run-IsSound p h e w here = record {
  handler = refl;
  alone = tt;
  accepts = server-HasOneAccept p e h.handle_request w;
}
Run-IsSound p h e w (later run ev) = Event-IsSound p h ev (Run-IsSound p h e w run)

pub All-IsOrderly :
    (p : Platform) (h : Handlers) (l : List (Session p.Socket))
    → All (IsAlone p h) l
    → All (IsOrderly p Session.server) l
All-IsOrderly p h [] a = tt
All-IsOrderly p h (x ∷ l) ((sock, w, path), a) =
    (Reach-IsOrderly p h Session.server sock w path, All-IsOrderly p h l a)
