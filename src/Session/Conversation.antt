-- ===== src/Session/Conversation.antt =====
-- Several exchanges, one behind the other, between one client session and one server session.
use mathlib.Core.Path.{subst}
use micro_tcp.Common.{
  ◌^◌, ◌<◌, List, [], ◌∷◌, ◌≡◌, false, Result, ok, throw, ◌>>=◌, Bytes, length, All,
}
use micro_tcp.Platform.{Platform}
use micro_tcp.World.{World}
use micro_tcp.Message.{Message, clear}
use micro_tcp.Handlers.{Handlers}
use micro_tcp.Session.{Session}
use micro_tcp.Session.ServerSession
use micro_tcp.Session.Transfer.{framed}
use micro_tcp.Session.Service.{cleared, IsWaiting, served, served-IsWaiting}
use micro_tcp.Session.Exchange.{
  exchange, exchange_lem, concluded, HasExchanged, concluded-HasExchanged,
}

-- The specification: the contents of the responses to these requests. The handler is given each
-- request and the server's write buffer, which is `write` the first time and a cleared one after
-- that.
unfoldable pub answers : Handlers → Message → List Message → List Bytes
answers h write [] = []
answers h write (m ∷ ms) =
    (h.handle_request (framed m.content_buffer) write).content_buffer ∷ answers h cleared ms

-- What the client's response handler does to the world: it is given the framed contents in their
-- order, and between its calls no file changes.
pub data Received (h : Handlers) : List Bytes → World → World → Type 0 where
  all_received : {w : World} → Received h [] w w
  receives :
      {c : Bytes} {cs : List Bytes} {w w1 w2 : World}
      → w1.files ≡ w.files
      → Received h cs (h.handle_response (framed c) w1) w2
      → Received h (c ∷ cs) w w2

module _ (p : Platform) (h : Handlers) (fine : p.ErrorCode) where
  open p use {Socket}

  pub converse :
      List Message → Session Socket → Session Socket → Result (Session Socket × Session Socket)
  converse [] c v = ok (c, v)
  converse (m ∷ ms) c v = exchange p h fine m c v >>= λ x. converse ms x.0 x.1

  -- The conversation returns; the client's handler has received these contents, its session is
  -- idle, and the server's session waits for the next request.
  abbrev pub HasConversed :
      List Bytes → Session Socket → Result (Session Socket × Session Socket) → Type 0
  HasConversed cs c (ok (c', v)) = Received h cs c.world c'.world × (c'.pending ≡ []) × IsWaiting v
  HasConversed cs c (throw e) = ⊥

  HasConversed-after :
      (x : Bytes) (cs : List Bytes) (c c1 v1 : Session Socket)
      (o : Result (Session Socket × Session Socket))
      → HasExchanged p h (framed x) c.world.files (ok (c1, v1))
      → HasConversed cs c1 o
      → HasConversed (x ∷ cs) c o
  HasConversed-after x cs c c1 v1 (ok (c', v)) e (received, idle, waits) =
      (receives e.0.2 (subst (λ w. Received h cs w c'.world) e.0.1 received), idle, waits)
  HasConversed-after x cs c c1 v1 (throw e) x' h' = h'

-- A conversation of a client session that is idle with a server session that waits, over a connection
-- without errors, where the requests and the specified answers have less than 10^10 bytes of content
-- each: it returns, the client's response handler has received exactly the specified answers, in
-- order, the client's session is idle, and the server's waits for the next request.
pub converse_lem :
    (p : Platform) (h : Handlers) (fine : p.ErrorCode) (ms : List Message) (c v : Session p.Socket)
    → p.failed fine ≡ false
    → c.pending ≡ []
    → IsWaiting v
    → All (λ m. length m.content_buffer < 10 ^ 10) ms
    → All (λ b. length b < 10 ^ 10) (answers h v.write_buffer ms)
    → HasConversed p h fine (answers h v.write_buffer ms) c (converse p h fine ms c v)
unfolding converse answers ServerSession.on_write_content clear
converse_lem p h fine [] c v succeeds idle w lt lt' = (all_received, idle, w)
converse_lem p h fine (m ∷ ms) c v succeeds idle w (lt, lts) (lt', lts') =
    let x = (h.handle_request (framed m.content_buffer) v.write_buffer).content_buffer in
    let c1 = concluded p h c m x in
    let v1 = served p h v m.content_buffer in
    let e = concluded-HasExchanged p h fine m c v x in
    rw (exchange_lem p h fine succeeds m c v idle w lt lt') (
      HasConversed-after p h fine x (answers h cleared ms) c c1 v1 (converse p h fine ms c1 v1) e (
        converse_lem p h fine ms c1 v1 succeeds e.1 (served-IsWaiting p h v m.content_buffer) lts
          lts'))
