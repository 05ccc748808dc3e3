-- ===== src/Session/Service.antt =====
-- Whole rounds over a connection without errors: requests that a server session answers, a request
-- that a client session sends, and the two put together.
use micro_tcp.Common.{
  zero, ◌^◌, ◌<◌, List, [], ◌∷◌, ◌++◌, append-nil, append_assoc, ◌≡◌, refl, sym, ◌∙◌, Result, ok,
  throw, false, ◌>>=◌, false, Bytes, length, length-replicate, All,
}
use micro_tcp.Platform.{Platform}
use micro_tcp.World.{World}
use micro_tcp.Message.{
  Message, default_message, default_header_length, prepare_header_buffer_write,
  prepare_header_buffer_read, clear,
}
use micro_tcp.Message.Header.{header_of}
use micro_tcp.Message.Content.{prepare_header_buffer_write-IsFramed}
use micro_tcp.Handlers.{Handlers}
use micro_tcp.Session.{Role, server, async_read_header, Session, session}
use micro_tcp.Session.ServerSession
use micro_tcp.Session.Completion.{
  next, run, complete, handshake_done, on_read_content, on_write_content, on_secure_handshake,
}
use micro_tcp.Session.Transfer.{
  framed, frame, read_message, write_message, header_world, written_world,
}

abbrev pub cleared : Message
cleared = record { header_buffer = []; content_buffer = [] }

-- The specification of a server session: the answers to requests with these contents, each framed,
-- one behind the other. The handler is given the request and the write buffer, which is `write`
-- the first time and a cleared one afterwards.
pub responses : Handlers → Message → List Bytes → Bytes
responses h write [] = []
responses h write (c ∷ cs) =
    frame (h.handle_request (framed c) write).content_buffer ++ responses h cleared cs

-- A session that waits for a header.
abbrev pub IsWaiting : {S : Type 0} → Session S → Type 0
IsWaiting s =
    (s.pending ≡ async_read_header default_header_length ∷ [])
    × (length s.read_buffer.header_buffer ≡ default_header_length)

-- The completions of the operations of one round of a server session.
module _ {E : Type 0} (fine : E) where
  abbrev pub round : Bytes → List (E × Bytes)
  round content =
      (fine, header_of (length content)) ∷ (fine, content) ∷ (fine, []) ∷ (fine, []) ∷ []

  abbrev pub rounds : List Bytes → List (E × Bytes)
  rounds [] = []
  rounds (c ∷ cs) = round c ++ rounds cs

module _ (p : Platform) where
  open p use {Socket}

  -- The run returns with these bytes sent, and the session waits for the next request.
  abbrev pub HasAnswered : Bytes → Result (Session Socket × Bytes) → Type 0
  HasAnswered sent (ok (s, out)) = (out ≡ sent) × IsWaiting s
  HasAnswered sent (throw e) = ⊥

module _ (p : Platform) (h : Handlers) where
  open p use {Socket, ErrorCode}

  abbrev pub answered : Session Socket → Bytes → Session Socket
  answered s content =
      on_read_content h server
        (record s { read_buffer = framed content; pending = []; world = header_world server s })

  abbrev pub served : Session Socket → Bytes → Session Socket
  served s content = on_write_content h server (record (answered s content) {
    pending = [];
    world = written_world server (answered s content);
  })

  pub served-IsWaiting : (s : Session Socket) (content : Bytes) → IsWaiting (served s content)
  unfolding ServerSession.on_write_content prepare_header_buffer_read
  served-IsWaiting s content = (refl, length-replicate 28 zero)

  pub run-append :
      (r : Role) (es fs : List (ErrorCode × Bytes)) (x : Session Socket × Bytes)
      → run p h r (es ++ fs) x ≡ (run p h r es x >>= run p h r fs)
  unfolding run
  run-append r [] fs x = refl
  run-append r (e ∷ es) fs x = after (next p h r e x) (run-append r es fs)
    where
      after :
          (o : Result (Session Socket × Bytes))
          → ((y : Session Socket × Bytes)
              → run p h r (es ++ fs) y ≡ (run p h r es y >>= run p h r fs))
          → (o >>= run p h r (es ++ fs)) ≡ ((o >>= run p h r es) >>= run p h r fs)
      after (ok y) ih = ih y
      after (throw x') ih = refl

module _ (p : Platform) (h : Handlers) (fine : p.ErrorCode) (succeeds : p.failed fine ≡ false) where
  open p use {Socket, ErrorCode}

  pub serve_round :
      (s : Session Socket) (out content : Bytes)
      → IsWaiting s
      → length content < 10 ^ 10
      → run p h server (round fine content) (s, out)
        ≡ ok (
          served p h s content,
          out ++ frame (h.handle_request (framed content) s.write_buffer).content_buffer,
        )
  unfolding ServerSession.on_read_content prepare_header_buffer_write
  serve_round s out content w lt =
      run-append p h server ((fine, header_of (length content)) ∷ (fine, content) ∷ [])
        ((fine, []) ∷ (fine, []) ∷ []) (s, out)
      ∙ rw (read_message p h fine succeeds server s out content default_header_length w.0 w.1 lt) (
          write_message p h fine succeeds server (answered p h s content) out refl (
            prepare_header_buffer_write-IsFramed
              (h.handle_request (framed content) s.write_buffer)))

  serves_from :
      (contents : List Bytes) (s : Session Socket) (out : Bytes)
      → IsWaiting s
      → All (λ c. length c < 10 ^ 10) contents
      → HasAnswered p
          (out ++ responses h s.write_buffer contents)
          (run p h server (rounds fine contents) (s, out))
  unfolding responses run ServerSession.on_write_content clear
  serves_from [] s out w lt = (sym (append-nil out), w)
  serves_from (c ∷ cs) s out w (lt, lts) =
      rw
        (
          run-append p h server (round fine c) (rounds fine cs) (s, out),
          serve_round s out c w lt,
          ← append_assoc,
        )
        (serves_from cs (served p h s c) _ (served-IsWaiting p h s c) lts)

  -- The session after its handshake.
  abbrev greeted : Socket → World → Session Socket
  greeted sock w =
      on_secure_handshake h server (record (ServerSession.start (session sock w)) { pending = [] })

  handshake_step :
      (sock : Socket) (w : World)
      → next p h server (fine, []) (ServerSession.start (session sock w), [])
        ≡ ok (greeted sock w, [])
  unfolding next complete handshake_done ServerSession.start session
  handshake_step sock w = rw succeeds

  greeted-IsWaiting : (sock : Socket) (w : World) → IsWaiting (greeted sock w)
  unfolding ServerSession.start ServerSession.on_secure_handshake session prepare_header_buffer_read
  greeted-IsWaiting sock w = (refl, length-replicate 28 zero)

-- A server session whose handshake succeeds and whose operations complete without errors, on
-- requests of less than 10^10 bytes of content each, returns, has sent the framed responses of the
-- request handler in order and nothing else, and waits for the next request.
pub server_serves :
    (p : Platform) (h : Handlers) (fine : p.ErrorCode) (contents : List Bytes) (sock : p.Socket)
    (w : World)
    → p.failed fine ≡ false
    → All (λ c. length c < 10 ^ 10) contents
    → HasAnswered p (responses h default_message contents) (
        run p h server
          ((fine, []) ∷ rounds fine contents)
          (ServerSession.start (session sock w), []))
unfolding run ServerSession.on_secure_handshake session ServerSession.start
server_serves p h fine contents sock w succeeds lt = rw (handshake_step p h fine succeeds sock w) (
    serves_from p h fine succeeds contents (greeted p h fine succeeds sock w) []
      (greeted-IsWaiting p h fine succeeds sock w) lt)
