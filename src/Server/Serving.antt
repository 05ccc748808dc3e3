-- ===== src/Server/Serving.antt =====
-- A server that is started and stopped at any time, also while an accept of its former listening is
-- still pending: while it listens an accept is pending, and its sessions are not disturbed.
use micro_tcp.Common.{
  ℕ, String, ◌≤◌, ◌≡◌, ◌∙◌, ◌⊎◌, inl, inr, false, All, arith, Bool-cases, ok, Bool,
}
use micro_tcp.Platform.{Platform}
use micro_tcp.Handlers.{Handlers}
use micro_tcp.Server.{
  ServerOf, is_listening, start, stop, accepted, set_address, set_address_text, set_port,
}
use micro_tcp.Server.Accepting.{
  start_listening_again, start_lem, stop_lem, stops, sets_address, sets_port,
}
use micro_tcp.Server.Running.{
  IsAlone, Keeps, Keeps-IsAlone, start-Keeps, Step-Keeps, accepted-Keeps,
}

-- While the server listens, an accept is pending, so that it will accept the next connection.
abbrev pub HasAccept : (p : Platform) → ServerOf p → Type 0
HasAccept p s = (p.acceptor_is_open s.acceptor ≡ false) ⊎ (1 ≤ s.accepting)

-- The sessions of the server use its first handler, each is in a state that it reaches by itself, and
-- an accept is pending while the server listens.
abbrev pub IsServing : (p : Platform) → Handlers → ServerOf p → Type 0
IsServing p h s =
    (s.request_handler ≡ h.handle_request) × All (IsAlone p h) s.sessions × HasAccept p s

Keeps-IsServing :
    (p : Platform) (h : Handlers) (s t : ServerOf p)
    → Keeps p s t
    → HasAccept p t
    → IsServing p h s
    → IsServing p h t
Keeps-IsServing p h s t k a (handler, alone, _) = (k.0 ∙ handler, Keeps-IsAlone p h s t k alone, a)

start-HasAccept : (p : Platform) (s : ServerOf p) → HasAccept p s → HasAccept p (start p s)
unfolding is_listening
start-HasAccept p s a = elim (Bool-cases (is_listening p s)) [
  | inl l ↦ rw (start_listening_again p s l) a
  | inr l ↦ inr (omega (arith, (start_lem p s l).1))
]

accepted-HasAccept :
    (p : Platform) (ec : p.ErrorCode) (sock : p.Socket) (s : ServerOf p)
    → HasAccept p (accepted p ec sock s)
unfolding accepted
accepted-HasAccept p ec sock s = elim (Bool-cases (p.acceptor_is_open s.acceptor)) [
  | inl l ↦ inr (ground arith)
  | inr l ↦ inl (ground arith)
]

pub start-IsServing :
    (p : Platform) (h : Handlers) (s : ServerOf p) → IsServing p h s → IsServing p h (start p s)
start-IsServing p h s v =
    Keeps-IsServing p h s (start p s) (start-Keeps p s) (start-HasAccept p s v.2) v

pub stop-IsServing :
    (p : Platform) (h : Handlers) (s t : ServerOf p)
    → stop p s ≡ ok t
    → IsServing p h s
    → IsServing p h t
unfolding is_listening
stop-IsServing p h s t e v =
    Keeps-IsServing p h s t (Step-Keeps p (stops e)) (inl (stop_lem p s t e).0) v

pub set_address-IsServing :
    (p : Platform) (h : Handlers) (a : p.Address) (s : ServerOf p)
    → IsServing p h s
    → IsServing p h (set_address p a s).1
unfolding set_address
set_address-IsServing p h a s v =
    Keeps-IsServing p h s (set_address p a s).1 (Step-Keeps p {s = s} (sets_address a))
      (ground arith) v

pub set_address_text-IsServing :
    (p : Platform) (h : Handlers) (text : String) (s : ServerOf p)
    → IsServing p h s
    → IsServing p h (set_address_text p text s).1
unfolding set_address_text
set_address_text-IsServing p h text s v = elim (Bool-cases (p.failed (p.from_string text).0)) [
  | inl bad ↦ rw bad v
  | inr fine ↦ rw fine (set_address-IsServing p h (p.from_string text).1 s v)
]

pub set_port-IsServing :
    (p : Platform) (h : Handlers) (port : ℕ) (s t : ServerOf p) (b : Bool)
    → set_port p port s ≡ ok (b, t)
    → IsServing p h s
    → IsServing p h t
unfolding set_port
set_port-IsServing p h port s t b e v =
    Keeps-IsServing p h s t (Step-Keeps p (sets_port port b e)) (ground arith) v

pub accepted-IsServing :
    (p : Platform) (h : Handlers) (n : ℕ) (ec : p.ErrorCode) (sock : p.Socket) (s : ServerOf p)
    → IsServing p h s
    → IsServing p h (accepted p ec sock (record s { accepting = n }))
accepted-IsServing p h n ec sock s v =
    Keeps-IsServing p h s (accepted p ec sock (record s { accepting = n }))
      (accepted-Keeps p n ec sock s) (accepted-HasAccept p ec sock (record s { accepting = n })) v
