-- ===== src/Server/Accepting.antt =====
-- Listening, and the chain of accepts.
use micro_tcp.Common.{
  ℕ, String, suc, ◌+◌, ◌-◌, ◌≤◌, Bool, true, false, not, [], ◌∷◌, ◌++◌, ◌≡◌, ◌∙◌, ap, ok, arith,
  if◌then◌else◌, Bool-cases, inl, inr, ◌⊎◌, ◌&&◌,
}
use micro_tcp.Platform.{Platform, Endpoint}
use micro_tcp.Message.{Message}
use micro_tcp.World.{World}
use micro_tcp.Session.{session}
use micro_tcp.Session.ServerSession
use micro_tcp.Server.{
  ServerOf, is_listening, start, stop, attempt, accepted, set_address, set_endpoint, set_port,
  server,
}

module _ (p : Platform) where
  open p use {
    ErrorCode, failed, is_operation_aborted, Socket, Acceptor, Address, acceptor_is_open,
    open_acceptor, set_reuse_address, bind, listen, close_acceptor,
  }

  -- What a step of `start_listening` changes.
  attempt_lem :
      (f : Acceptor → ErrorCode × Acceptor) (what : String) (s : ServerOf p)
      → ((attempt p f what s).acceptor ≡ (f s.acceptor).1)
        × ((attempt p f what s).accepting ≡ s.accepting)
        × ((attempt p f what s).sessions ≡ s.sessions)
        × ((attempt p f what s).endpoint ≡ s.endpoint)
        × ((attempt p f what s).request_handler ≡ s.request_handler)
  unfolding attempt
  attempt_lem f what s = ground arith

  -- The acceptor after the four steps.
  abbrev after_steps : Endpoint Address → Acceptor → Acceptor
  after_steps e a = (listen (bind e (set_reuse_address (open_acceptor e.address a).1).1).1).1

  after_steps_open :
      (e : Endpoint Address) (a : Acceptor)
      → acceptor_is_open a ≡ false
      → acceptor_is_open (after_steps e a) ≡ not (failed (open_acceptor e.address a).0)
  after_steps_open e a h =
      p.listen_keeps_open _
      ∙ p.bind_keeps_open e _
      ∙ p.set_reuse_address_keeps_open _
      ∙ p.open_opens e.address a h

  start_closed :
      (s : ServerOf p)
      → is_listening p s ≡ false
      → ((start p s).acceptor ≡ after_steps s.endpoint s.acceptor)
        × ((start p s).accepting ≡ s.accepting + 1)
        × ((start p s).sessions ≡ s.sessions)
        × ((start p s).endpoint ≡ s.endpoint)
        × ((start p s).request_handler ≡ s.request_handler)
  unfolding start is_listening
  start_closed s l =
      let s1 = attempt p (open_acceptor s.endpoint.address) "Opening acceptor failed" s in
      let s2 = attempt p set_reuse_address "Setting acceptor option failed" s1 in
      let s3 = attempt p (bind s2.endpoint) "Binding acceptor to local endpoint failed" s2 in
      ground (
        arith,
        attempt_lem (open_acceptor s.endpoint.address) "Opening acceptor failed" s,
        attempt_lem set_reuse_address "Setting acceptor option failed" s1,
        attempt_lem (bind s2.endpoint) "Binding acceptor to local endpoint failed" s2,
        attempt_lem listen "Start listening for new connections failed" s3,
      )

  pub start_listening_again : (s : ServerOf p) → is_listening p s ≡ true → start p s ≡ s
  unfolding start is_listening
  start_listening_again s l = simp l

-- Starting a server that does not listen: it then listens exactly if the acceptor could be opened,
-- whatever became of the option, the binding and the listening; one accept more is pending; the
-- endpoint, the handler and the sessions are as they were.
pub start_lem :
    (p : Platform) (s : ServerOf p)
    → is_listening p s ≡ false
    → let t = start p s in
      (is_listening p t ≡ not (p.failed (p.open_acceptor s.endpoint.address s.acceptor).0))
      × (t.accepting ≡ s.accepting + 1)
      × (t.endpoint ≡ s.endpoint)
      × (t.request_handler ≡ s.request_handler)
      × (t.sessions ≡ s.sessions)
unfolding is_listening
start_lem p s l =
    let (acceptor, accepting, sessions, endpoint, handler) = start_closed p s l in
    (
      ap p.acceptor_is_open acceptor ∙ after_steps_open p s.endpoint s.acceptor l,
      accepting,
      endpoint,
      handler,
      sessions,
    )

-- Once a start has opened the acceptor, another one changes nothing.
pub start_idempotent :
    (p : Platform) (s : ServerOf p)
    → p.failed (p.open_acceptor s.endpoint.address s.acceptor).0 ≡ false
    → start p (start p s) ≡ start p s
start_idempotent p s e = elim (Bool-cases (is_listening p s)) [
  | inl l ↦ ap (start p) (start_listening_again p s l)
  | inr l ↦ start_listening_again p (start p s) ((start_lem p s l).0 ∙ ap not e)
]

-- A completed accept starts exactly one server session, on the socket of the connection, if the
-- server listens and there was no error, and none otherwise; it is followed by another accept if
-- and only if the server listens.
pub accepted_lem :
    (p : Platform) (ec : p.ErrorCode) (sock : p.Socket) (s : ServerOf p)
    → let t = accepted p ec sock s in
      (t.sessions ≡ (
        if is_listening p s && not (p.failed ec)
        then s.sessions ++ ServerSession.start (session sock s.world) ∷ []
        else s.sessions))
      × (t.accepting ≡ (if is_listening p s then s.accepting + 1 else s.accepting))
      × (t.acceptor ≡ s.acceptor)
      × (t.endpoint ≡ s.endpoint)
unfolding accepted is_listening
accepted_lem p ec sock s = ground arith

-- The events of a server that is not restarted while an accept is still pending.
pub data Step (p : Platform) (s : ServerOf p) : ServerOf p → Type 0 where
  accepts :
      (n : ℕ) (ec : p.ErrorCode) (sock : p.Socket)
      → s.accepting ≡ suc n
      → Step p s (accepted p ec sock (record s { accepting = n }))
  stops : {t : ServerOf p} → stop p s ≡ ok t → Step p s t
  starts : (s.accepting ≡ 0) ⊎ (is_listening p s ≡ true) → Step p s (start p s)
  sets_address : (a : p.Address) → Step p s (set_address p a s).1
  sets_endpoint : (e : Endpoint p.Address) → Step p s (set_endpoint p e s).1
  sets_port : (port : ℕ) (b : Bool) {t : ServerOf p} → set_port p port s ≡ ok (b, t) → Step p s t

pub data Reach (p : Platform) (s : ServerOf p) : ServerOf p → Type 0 where
  here : Reach p s s
  next : {t u : ServerOf p} → Reach p s t → Step p t u → Reach p s u

-- At most one accept is pending, and exactly one while the server listens.
pub record HasOneAccept (p : Platform) (s : ServerOf p) : Type 0 where
  pub at_most : s.accepting ≤ 1
  pub exactly : is_listening p s ≡ true → s.accepting ≡ 1

pub stop_lem :
    (p : Platform) (s t : ServerOf p)
    → stop p s ≡ ok t
    → (is_listening p t ≡ false) × (t.accepting ≡ s.accepting) × (t.sessions ≡ s.sessions)
unfolding stop is_listening
stop_lem p s t e = ground (arith, p.close_acceptor_closes s.acceptor)

set_address-HasOneAccept :
    (p : Platform) (s : ServerOf p) (a : p.Address)
    → HasOneAccept p s
    → HasOneAccept p (set_address p a s).1
unfolding is_listening set_address
set_address-HasOneAccept p s a v = ground arith

set_endpoint-HasOneAccept :
    (p : Platform) (s : ServerOf p) (e : Endpoint p.Address)
    → HasOneAccept p s
    → HasOneAccept p (set_endpoint p e s).1
unfolding is_listening set_endpoint
set_endpoint-HasOneAccept p s e v = ground arith

set_port-HasOneAccept :
    (p : Platform) (s t : ServerOf p) (port : ℕ) (b : Bool)
    → set_port p port s ≡ ok (b, t)
    → HasOneAccept p s
    → HasOneAccept p t
unfolding is_listening set_port
set_port-HasOneAccept p s t port b e v = ground arith

start-HasOneAccept :
    (p : Platform) (s : ServerOf p)
    → (s.accepting ≡ 0) ⊎ (is_listening p s ≡ true)
    → HasOneAccept p s
    → HasOneAccept p (start p s)
start-HasOneAccept p s when v = elim (Bool-cases (is_listening p s)) [
  | inl l ↦ rw (start_listening_again p s l) v
  | inr l ↦ elim when [
    | inl none_left ↦
        let one : (start p s).accepting ≡ 1 = omega (arith, start_lem p s l) in
        record { at_most = omega arith; exactly = λ _. one }
    | inr l' ↦ cc
  ]
]

accepted-HasOneAccept :
    (p : Platform) (ec : p.ErrorCode) (sock : p.Socket) (s : ServerOf p) (n : ℕ)
    → s.accepting ≡ suc n
    → HasOneAccept p s
    → HasOneAccept p (accepted p ec sock (record s { accepting = n }))
unfolding is_listening
accepted-HasOneAccept p ec sock s n e v =
    ground (arith, accepted_lem p ec sock (record s { accepting = n }))

pub Step-HasOneAccept :
    (p : Platform) {s t : ServerOf p} → Step p s t → HasOneAccept p s → HasOneAccept p t
Step-HasOneAccept p {s} (accepts n ec sock e) v = accepted-HasOneAccept p ec sock s n e v
Step-HasOneAccept p {s} {t} (stops e) v =
    let (closed, same, _) = stop_lem p s t e in record { at_most = omega arith; exactly = λ l. cc }
Step-HasOneAccept p {s} (starts when) v = start-HasOneAccept p s when v
Step-HasOneAccept p {s} (sets_address a) v = set_address-HasOneAccept p s a v
Step-HasOneAccept p {s} (sets_endpoint e) v = set_endpoint-HasOneAccept p s e v
Step-HasOneAccept p {s} {t} (sets_port port b e) v = set_port-HasOneAccept p s t port b e v

pub server-HasOneAccept :
    (p : Platform) (e : Endpoint p.Address) (h : Message → Message → Message) (w : World)
    → HasOneAccept p (server p e h w)
unfolding server is_listening
server-HasOneAccept p e h w = record {
  at_most = omega arith;
  exactly = λ l. cc (p.new_acceptor_closed);
}

-- From its construction on, if the server is not restarted while an accept of its former listening
-- is still pending, at most one accept is pending, and exactly one while it listens.
pub Reach-HasOneAccept :
    (p : Platform) (e : Endpoint p.Address) (h : Message → Message → Message) (w : World)
    {s : ServerOf p}
    → Reach p (server p e h w) s
    → HasOneAccept p s
Reach-HasOneAccept p e h w here = server-HasOneAccept p e h w
Reach-HasOneAccept p e h w (next path st) = Step-HasOneAccept p st (Reach-HasOneAccept p e h w path)

-- A server with one accept pending that is stopped and started again has two accepts pending once
-- the first one completes with an error, if the acceptor can be opened again.
pub restart_doubles :
    (p : Platform) (s t : ServerOf p) (ec : p.ErrorCode) (sock : p.Socket)
    → s.accepting ≡ 1
    → stop p s ≡ ok t
    → p.failed (p.open_acceptor t.endpoint.address t.acceptor).0 ≡ false
    → p.failed ec ≡ true
    → let u = start p t in
      let v = accepted p ec sock (record u { accepting = u.accepting - 1 }) in
      (v.accepting ≡ 2) × (v.sessions ≡ s.sessions)
unfolding is_listening
restart_doubles p s t ec sock one stopped opened bad =
    let u = start p t in
    ground (
      arith,
      stop_lem p s t stopped,
      start_lem p t,
      accepted_lem p ec sock (record u { accepting = u.accepting - 1 }),
    )
