-- ===== src/Session/Exchange.antt =====
-- A request that a client session sends to a server session, over a connection without errors.
use micro_tcp.Common.{
  zero, ◌^◌, ◌<◌, List, [], ◌∷◌, ◌++◌, ◌≡◌, refl, sym, ap, ◌∙◌, Result, ok, throw, false, ◌>>=◌,
  false, Bytes, length, take, drop, take_front, drop_front, length-replicate, String, Option,
}
use micro_tcp.Platform.{Platform}
use micro_tcp.World.{World, is_empty}
use micro_tcp.Message.{
  Message, default_header_length, prepare_header_buffer_write, set_content_buffer,
  prepare_header_buffer_read, clear,
}
use micro_tcp.Message.Header.{header_of, length-header_of}
use micro_tcp.Message.Content.{prepare_header_buffer_write-IsFramed}
use mathlib.Core.Path.{subst}
use micro_tcp.Handlers.{Handlers, handle_request}
use micro_tcp.Session.{server, client, debug, async_write_header, Session}
use micro_tcp.Session.ClientSession
use micro_tcp.Session.Completion.{run, on_read_content, on_write_content}
use micro_tcp.Session.Transfer.{
  framed, frame, read_message, write_message, header_world, written_world,
}
use micro_tcp.Session.Service.{cleared, IsWaiting, served, serve_round, served-IsWaiting}

-- The bytes that one side has sent are what the other side's two reads transfer: as many as its
-- header buffer holds, and the rest.
module _ {E : Type 0} (fine : E) where
  abbrev pub delivered : Bytes → List (E × Bytes)
  delivered sent =
      (fine, take default_header_length sent) ∷ (fine, drop default_header_length sent) ∷ []

module _ (p : Platform) (h : Handlers) (fine : p.ErrorCode) where
  open p use {Socket}

  abbrev pub receive :
      Session Socket → Session Socket × Bytes → Result (Session Socket × Session Socket)
  receive c (v, response) = do
    (c', rest) ← run p h client (delivered fine response) (c, [])
    ok (c', v)

  abbrev pub answer :
      Session Socket → Session Socket × Bytes → Result (Session Socket × Session Socket)
  answer v (c, request) =
      run p h server (delivered fine request ++ (fine, []) ∷ (fine, []) ∷ []) (v, []) >>= receive c

  -- A client's session `c` sends a message, a server's session `v` reads it and writes the response,
  -- which the client's session reads.
  unfoldable pub exchange :
      Message → Session Socket → Session Socket → Result (Session Socket × Session Socket)
  exchange m c v =
      run p h client ((fine, []) ∷ (fine, []) ∷ []) (ClientSession.send m c, []) >>= answer v

module _ (p : Platform) (h : Handlers) where
  open p use {Socket}

  -- The client's session after a request is written, and the completions of the two writes.
  abbrev pub requested : Session Socket → Message → Session Socket
  requested s m =
      let t = ClientSession.send m s in
      on_write_content h client (record t { pending = []; world = written_world client t })

  -- The client's session after the response is read.
  abbrev pub concluded : Session Socket → Message → Bytes → Session Socket
  concluded c m content = on_read_content h client (record (requested c m) {
    read_buffer = framed content;
    pending = [];
    world = header_world client (requested c m);
  })

module _ (p : Platform) (h : Handlers) (fine : p.ErrorCode) (succeeds : p.failed fine ≡ false) where
  open p use {Socket}

  pub request_sent :
      (s : Session Socket) (m : Message) (out : Bytes)
      → s.pending ≡ []
      → run p h client ((fine, []) ∷ (fine, []) ∷ []) (ClientSession.send m s, out)
        ≡ ok (requested p h s m, out ++ frame m.content_buffer)
  unfolding ClientSession.send prepare_header_buffer_write
  request_sent s m out idle =
      write_message p h fine succeeds client (ClientSession.send m s) out
        (ap (λ ops. ops ++ async_write_header (prepare_header_buffer_write m).header_buffer ∷ [])
          idle)
        (prepare_header_buffer_write-IsFramed m)

  pub requested-IsWaiting : (s : Session Socket) (m : Message) → IsWaiting (requested p h s m)
  unfolding ClientSession.on_write_content prepare_header_buffer_read
  requested-IsWaiting s m = (refl, length-replicate 28 zero)

  delivered-frame :
      (content : Bytes)
      → length content < 10 ^ 10
      → delivered fine (frame content) ≡ (fine, header_of (length content)) ∷ (fine, content) ∷ []
  delivered-frame content lt = rw (
    take_front (header_of (length content)) content 28 (length-header_of _ lt),
    drop_front (header_of (length content)) content 28 (length-header_of _ lt),
  )

  pub exchange_lem :
      (m : Message) (c v : Session Socket)
      → c.pending ≡ []
      → IsWaiting v
      → let response = (h.handle_request (framed m.content_buffer) v.write_buffer).content_buffer in
        length m.content_buffer < 10 ^ 10
        → length response < 10 ^ 10
        → exchange p h fine m c v ≡ ok (concluded p h c m response, served p h v m.content_buffer)
  unfolding exchange
  exchange_lem m c v idle w lt lt' =
      let response = (h.handle_request (framed m.content_buffer) v.write_buffer).content_buffer in
      let c' = requested p h c m in
      let waits = requested-IsWaiting c m in
      ap (λ o. o >>= answer p h fine v) (request_sent c m [] idle)
      ∙ ap
          (λ es.
            run p h server (es ++ (fine, []) ∷ (fine, []) ∷ []) (v, []) >>= receive p h fine c')
          (delivered-frame m.content_buffer lt)
      ∙ ap (λ o. o >>= receive p h fine c')
          (serve_round p h fine succeeds v [] m.content_buffer w lt)
      ∙ ap (λ es. run p h client es (c', []) >>= λ x. ok (x.0, served p h v m.content_buffer))
          (delivered-frame response lt')
      ∙ ap (λ o. o >>= λ x. ok (x.0, served p h v m.content_buffer))
          (read_message p h fine succeeds client c' [] response 28 waits.0 waits.1 lt')

-- What the two sessions have done after an exchange: the client's response handler has been given
-- the received message in a world with the files that `files` tells, its session is idle with
-- cleared buffers, and the server's session waits for the next request.
abbrev pub HasExchanged :
    (p : Platform) (h : Handlers)
    → Message
    → (String → Option Bytes)
    → Result (Session p.Socket × Session p.Socket)
    → Type 0
HasExchanged p h received files (ok (c, v)) =
    ((w : World) × (c.world ≡ h.handle_response received w) × (w.files ≡ files))
    × (c.pending ≡ [])
    × (c.read_buffer ≡ cleared)
    × (c.write_buffer ≡ cleared)
    × IsWaiting v
HasExchanged p h received files (throw e) = ⊥

pub concluded-HasExchanged :
    (p : Platform) (h : Handlers) (fine : p.ErrorCode) (m : Message) (c v : Session p.Socket)
    (content : Bytes)
    → HasExchanged p h
        (framed content)
        c.world.files
        (ok (concluded p h c m content, served p h v m.content_buffer))
unfolding ClientSession.on_read_content ClientSession.on_write_content ClientSession.send debug
    clear is_empty
concluded-HasExchanged p h fine m c v content =
    ((_, refl, refl), refl, refl, refl, served-IsWaiting p h v m.content_buffer)

-- One exchange between an idle client session and a waiting server session, over a connection
-- without errors, where the request and the response have less than 10^10 bytes of content: it
-- returns, the client's response handler is given the framed response, the client's session is idle
-- with cleared buffers, and the server's waits for the next request.
pub exchange_answers :
    (p : Platform) (h : Handlers) (fine : p.ErrorCode) (m : Message) (c v : Session p.Socket)
    → p.failed fine ≡ false
    → c.pending ≡ []
    → IsWaiting v
    → length m.content_buffer < 10 ^ 10
    → length (h.handle_request (framed m.content_buffer) v.write_buffer).content_buffer < 10 ^ 10
    → let response = (h.handle_request (framed m.content_buffer) v.write_buffer).content_buffer in
      HasExchanged p h (framed response) c.world.files (exchange p h fine m c v)
exchange_answers p h fine m c v succeeds idle w lt lt' =
    let response = (h.handle_request (framed m.content_buffer) v.write_buffer).content_buffer in
    subst (HasExchanged p h (framed response) c.world.files)
      (sym (exchange_lem p h fine succeeds m c v idle w lt lt'))
      (concluded-HasExchanged p h fine m c v response)

-- With the echoing request handler the client's response handler is given the content that was sent.
pub exchange_echoes :
    (p : Platform) (respond : Message → World → World) (fine : p.ErrorCode) (m : Message)
    (c v : Session p.Socket)
    → p.failed fine ≡ false
    → c.pending ≡ []
    → IsWaiting v
    → length m.content_buffer < 10 ^ 10
    → let h : Handlers = record { handle_request = handle_request; handle_response = respond } in
      HasExchanged p h (framed m.content_buffer) c.world.files (exchange p h fine m c v)
unfolding handle_request set_content_buffer prepare_header_buffer_write
exchange_echoes p respond fine m c v succeeds idle w lt =
    exchange_answers p (record { handle_request = handle_request; handle_response = respond }) fine
      m c v succeeds idle w lt lt
