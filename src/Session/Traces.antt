-- ===== src/Session/Traces.antt =====
-- The histories of a session: completions in any order, with any error codes and any bytes, and
-- requests and stops that the client's user calls for while nothing is pending.
use mathlib.Core.Path.{subst, ap₂}
use micro_tcp.Common.{List, [], ◌∷◌, ◌++◌, ◌≡◌, refl, ok, Bytes, arith, length, append_assoc}
use micro_tcp.Platform.{Platform}
use micro_tcp.World.{World}
use micro_tcp.Message.{Message}
use micro_tcp.Message.Header.{header_of, prepare_header_buffer_write-header}
use micro_tcp.Message.Content.{prepare_header_buffer_write-IsFramed}
use micro_tcp.Handlers.{Handlers}
use micro_tcp.Session.{Role, server, client, Operation, async_write_header, Session, session, stop}
use micro_tcp.Session.ServerSession
use micro_tcp.Session.ClientSession
use micro_tcp.Session.Completion.{complete}
use micro_tcp.Session.Invariant.{Allows, AllowsOne, IsOrderly, stop-IsOrderly, complete-IsOrderly}

abbrev pub start : {S : Type 0} → Role → Session S → Session S
start server s = ServerSession.start s
start client s = ClientSession.start s

module _ (p : Platform) (h : Handlers) (r : Role) where
  open p use {Socket, ErrorCode}

  -- `elsewhere` is a change of the files or of the output by other code.
  pub data Step (s : Session Socket) : Session Socket → Type 0 where
    completes :
        (before after : List Operation) (op : Operation) (ec : ErrorCode) (bytes : Bytes)
        {t : Session Socket}
        → s.pending ≡ before ++ op ∷ after
        → complete p h r op ec bytes (record s { pending = before ++ after }) ≡ ok t
        → Step s t
    sends : (m : Message) → r ≡ client → s.pending ≡ [] → Step s (ClientSession.send m s)
    stops : r ≡ client → s.pending ≡ [] → Step s (stop p s)
    elsewhere : (w : World) → Step s (record s { world = w })

  pub data Reach (s : Session Socket) : Session Socket → Type 0 where
    here : Reach s s
    then : {t u : Session Socket} → Reach s t → Step t u → Reach s u

  pub AllowsOne-only :
      (read write : Message) (before after : List Operation) (op : Operation)
      → AllowsOne p r read write (before ++ op ∷ after)
      → (before ≡ []) × (after ≡ []) × Allows p r read write op
  AllowsOne-only read write [] [] op a = (refl, refl, a)
  AllowsOne-only read write [] (x ∷ after) op a = absurd a
  AllowsOne-only read write (x ∷ []) after op a = absurd a
  AllowsOne-only read write (x ∷ y ∷ before) after op a = absurd a

  send-IsOrderly :
      (m : Message) (s : Session Socket) → s.pending ≡ [] → IsOrderly p r (ClientSession.send m s)
  unfolding ClientSession.send
  send-IsOrderly m s idle = ground (arith, prepare_header_buffer_write-IsFramed m)

  Step-IsOrderly : {s t : Session Socket} → Step s t → IsOrderly p r s → IsOrderly p r t
  Step-IsOrderly {s} {t} (completes before after op ec bytes e g) o =
      let only =
        AllowsOne-only s.read_buffer s.write_buffer before after op
          (subst (AllowsOne p r s.read_buffer s.write_buffer) e o) in
      complete-IsOrderly p h r op ec bytes s t only.2 (
        subst (λ ops. complete p h r op ec bytes (record s { pending = ops }) ≡ ok t)
          (ap₂ (λ a b. a ++ b) only.0 only.1) g)
  Step-IsOrderly {s} (sends m e idle) o = send-IsOrderly m s idle
  Step-IsOrderly {s} (stops e idle) o = stop-IsOrderly p h r s idle
  Step-IsOrderly (elsewhere w) o = o

module _ (p : Platform) where
  open p use {Socket}

  start-IsOrderly :
      (r : Role) (sock : Socket) (w : World) → IsOrderly p r (start r (session sock w))
  unfolding session ServerSession.start ClientSession.start
  start-IsOrderly server sock w = refl
  start-IsOrderly client sock w = refl

-- In every state that a server or client session reaches from its start, through completions with
-- any error codes and bytes, requests and stops while nothing is pending, and changes of the world
-- by other code: at most one operation is pending, a header is read into exactly 28 bytes, content
-- into as many bytes as the header announces, and what is written is the header or the content of
-- one framed message.
pub Reach-IsOrderly :
    (p : Platform) (h : Handlers) (r : Role) (sock : p.Socket) (w : World) {s : Session p.Socket}
    → Reach p h r (start r (session sock w)) s
    → IsOrderly p r s
Reach-IsOrderly p h r sock w here = start-IsOrderly p r sock w
Reach-IsOrderly p h r sock w (then path st) =
    Step-IsOrderly p h r st (Reach-IsOrderly p h r sock w path)

AllowsOne-two :
    (p : Platform) (r : Role) (read write : Message) (ops : List Operation) (a b : Operation)
    → ¬ AllowsOne p r read write ((ops ++ a ∷ []) ++ b ∷ [])
AllowsOne-two p r read write [] a b o = o
AllowsOne-two p r read write (x ∷ []) a b o = o
AllowsOne-two p r read write (x ∷ y ∷ ops) a b o = o

-- Whatever the state of a client session was, after two calls of send without a completion between
-- them the writes of two headers are pending at once, behind what was pending before, each header with
-- the length of its message; the write buffer is the second message, and the session is disorderly.
pub send_again :
    (p : Platform) (s : Session p.Socket) (m n : Message)
    → let t = ClientSession.send n (ClientSession.send m s) in
      (t.pending
        ≡ s.pending
          ++ async_write_header (header_of (length m.content_buffer))
            ∷ async_write_header (header_of (length n.content_buffer))
            ∷ [])
      × (t.write_buffer ≡ record n { header_buffer = header_of (length n.content_buffer) })
      × (¬ IsOrderly p client t)
unfolding ClientSession.send
send_again p s m n = (
  rw (prepare_header_buffer_write-header m, prepare_header_buffer_write-header n)
      (append_assoc s.pending _ _),
  prepare_header_buffer_write-header n,
  AllowsOne-two p client _ _ s.pending _ _,
)
