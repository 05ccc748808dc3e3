-- ===== src/Network/History.antt =====
-- What the bytes that a session has read and begun to write have to do with the messages that its handler was
-- given, while none of its operations has failed.
use micro_tcp.Common.{
  ℕ, false, List, [], ◌∷◌, ◌++◌, append-nil, append_assoc, Result, throw, ◌>>=◌, ◌≡◌, refl, sym, ap,
  ◌∙◌, ok, Bytes, length, inl, inr,
}
use micro_tcp.Platform.{Platform}
use micro_tcp.World.{World}
use micro_tcp.Message.{Message, default_message, prepare_content_buffer_read, clear}
use micro_tcp.Message.Content.{IsFramed, prepare_content_buffer_write-IsFramed}
use micro_tcp.Handlers.{Handlers}
use micro_tcp.Session.{
  Role, server, client, Operation, async_handshake, async_read_header, async_read_content,
  async_write_header, async_write_content, async_shutdown, async_write_null, async_wait, Session,
}
use micro_tcp.Session.ServerSession
use micro_tcp.Session.ClientSession
use micro_tcp.Session.Completion.{
  complete, fill, handshake_done, read_header_done, write_header_done, write_content_done,
  on_read_header,
}
use micro_tcp.Session.Transfer.{fill_whole}
use micro_tcp.Session.Service.{cleared}
use micro_tcp.Session.Invariant.{prepared}
use micro_tcp.Network.Specification.{chunks, after}
use micro_tcp.Network.{Stream, whole, behind, written, Reads, Writes, Moves}

pub whole-behind : (o : Stream) (b : Bytes) → whole (behind o b) ≡ whole o ++ b
whole-behind o b = rw (append_assoc, append_assoc)

-- A write without an error leaves what was begun to be written, all of which has arrived.
Writes-whole : (o o' : Stream) → Writes false o o' → (whole o' ≡ whole o) × (o'.unsent ≡ [])
Writes-whole o o' (ec, ea, eu, inl bad) = cc
Writes-whole o o' (ec, ea, eu, inr e) = (cc, eu)

-- The write buffer that a server's handler will be given, and what makes it the cleared one.
abbrev pub Fits : Role → Message → List Message → Type 0
Fits server write given = write ≡ after default_message given
Fits client write given = Unit

abbrev pub Answers : Role → List Message → Type 0
Answers server given = after default_message given ≡ cleared
Answers client given = Unit

-- `inn` was read, `o` was begun to be written; `given` was handed over, and `expected` is to be sent.
abbrev pub Between : Role → Message → Bytes → Stream → List Message → Bytes → Type 0
Between r write inn o given expected =
    (inn ≡ chunks given) × (whole o ≡ expected) × (o.unsent ≡ []) × Fits r write given

-- A client waits for its user between two exchanges; a server's session always reads or writes.
abbrev pub MayIdle : Role → Type 0
MayIdle server = ⊥
MayIdle client = Unit

abbrev pub HistoryOf :
    Role → Message → Message → Bytes → Stream → List Message → Bytes → Operation → Type 0
HistoryOf r read write inn o given expected (async_handshake type) =
    Between r write inn o given expected
HistoryOf r read write inn o given expected (async_read_header n) =
    Between r write inn o given expected
HistoryOf r read write inn o given expected (async_read_content n) =
    (inn ≡ chunks given ++ read.header_buffer)
    × (whole o ≡ expected)
    × (o.unsent ≡ [])
    × Fits r write given
HistoryOf r read write inn o given expected (async_write_header b) =
    (inn ≡ chunks given) × (whole o ++ write.content_buffer ≡ expected) × Answers r given
HistoryOf r read write inn o given expected (async_write_content b) =
    (inn ≡ chunks given) × (whole o ≡ expected) × Answers r given
HistoryOf r read write inn o given expected async_shutdown = ⊥
HistoryOf r read write inn o given expected async_write_null = ⊥
HistoryOf r read write inn o given expected async_wait = ⊥

abbrev pub History :
    Role → Message → Message → Bytes → Stream → List Message → Bytes → List Operation → Type 0
History r read write inn o given expected [] =
    (inn ≡ chunks given) × (whole o ≡ expected) × (o.unsent ≡ []) × MayIdle r
History r read write inn o given expected (op ∷ []) = HistoryOf r read write inn o given expected op
History r read write inn o given expected (op ∷ op' ∷ ops) = ⊥

-- What a completion that returns leaves behind, with these streams.
module _ {S : Type 0} (i o : Stream) where
  abbrev pub Gives : Role → List Message → Bytes → Result (Session S) → Type 0
  Gives r given expected (ok t) =
      History r t.read_buffer t.write_buffer i.consumed (behind o (written t.pending)) given
        expected t.pending
  Gives r given expected (throw e) = Unit

module _ (p : Platform) (h : Handlers) (ec : p.ErrorCode) (fine : p.failed ec ≡ false)
    (s : Session p.Socket) (w : World) (i o i' o' : Stream) (given : List Message)
    (expected : Bytes) where
  open p use {Socket, indeterminate}

  abbrev Was : Role → Operation → Type 0
  Was r op = HistoryOf r s.read_buffer s.write_buffer i.consumed o given expected op

  abbrev Completed : Role → Operation → Bytes → Result (Session Socket)
  Completed r op bytes = complete p h r op ec bytes (record s { pending = []; world = w })

  -- Nothing is begun to be written.
  pub still :
      o' ≡ o
      → whole o ≡ expected
      → o.unsent ≡ []
      → (whole (behind o' []) ≡ expected) × (o'.unsent ++ [] ≡ [])
  still eo out none = (
    whole-behind o' [] ∙ append-nil (whole o') ∙ ap (λ x. whole x) eo ∙ out,
    append-nil o'.unsent ∙ ap (λ x. x.unsent) eo ∙ none,
  )

  pub handshake-Gives :
      (r type : Role) (bytes : Bytes)
      → Was r (async_handshake type)
      → Moves false (async_handshake type) bytes i o i' o'
      → Gives i' o' r given expected (Completed r (async_handshake type) bytes)
  unfolding complete handshake_done ServerSession.on_secure_handshake
      ClientSession.on_secure_handshake
  handshake-Gives server type bytes (inn, out, none, fit) (ei, eo) =
      rw fine (ap (λ x. x.consumed) ei ∙ inn, (still eo out none).0, (still eo out none).1, fit)
  handshake-Gives client type bytes (inn, out, none, fit) (ei, eo) =
      rw fine (ap (λ x. x.consumed) ei ∙ inn, (still eo out none).0, (still eo out none).1, fit)

  header_out :
      (content : Bytes)
      → Writes false o o'
      → whole o ++ content ≡ expected
      → whole (behind o' (content ++ [])) ≡ expected
  header_out content mo out =
      whole-behind o' (content ++ []) ∙ rw (append-nil content, (Writes-whole o o' mo).0) out

  content_out :
      Writes false o o'
      → whole o ≡ expected
      → (whole (behind o' []) ≡ expected) × (o'.unsent ++ [] ≡ [])
  content_out mo out =
      let (same, none) = Writes-whole o o' mo in
      (whole-behind o' [] ∙ append-nil (whole o') ∙ same ∙ out, append-nil o'.unsent ∙ none)

  pub write_header-Gives :
      (r : Role) (b bytes : Bytes)
      → IsFramed s.write_buffer
      → Was r (async_write_header b)
      → Moves false (async_write_header b) bytes i o i' o'
      → Gives i' o' r given expected (Completed r (async_write_header b) bytes)
  unfolding complete write_header_done ServerSession.on_write_header ClientSession.on_write_header
  write_header-Gives server b bytes f (inn, out, a) (ei, mo) =
      rw (fine, prepare_content_buffer_write-IsFramed indeterminate s.write_buffer f)
        (ap (λ x. x.consumed) ei ∙ inn, header_out _ mo out, a)
  write_header-Gives client b bytes f (inn, out, a) (ei, mo) =
      rw (fine, prepare_content_buffer_write-IsFramed indeterminate s.write_buffer f)
        (ap (λ x. x.consumed) ei ∙ inn, header_out _ mo out, a)

  pub write_content-Gives :
      (r : Role) (b bytes : Bytes)
      → Was r (async_write_content b)
      → Moves false (async_write_content b) bytes i o i' o'
      → Gives i' o' r given expected (Completed r (async_write_content b) bytes)
  unfolding complete write_content_done ServerSession.on_write_content
      ClientSession.on_write_content clear
  write_content-Gives server b bytes (inn, out, a) (ei, mo) =
      rw fine (ap (λ x. x.consumed) ei ∙ inn, (content_out mo out).0, (content_out mo out).1, sym a)
  write_content-Gives client b bytes (inn, out, a) (ei, mo) =
      rw fine (ap (λ x. x.consumed) ei ∙ inn, (content_out mo out).0, (content_out mo out).1, a)

  -- What was read is whole.
  pub read_whole :
      (n : ℕ) (bytes buffer : Bytes)
      → length buffer ≡ n
      → Reads false n bytes i i'
      → i'.consumed ≡ i.consumed ++ fill bytes buffer
  read_whole n bytes buffer l (ea, ec, eu, inl bad) = cc
  read_whole n bytes buffer l (ea, ec, eu, inr size) =
      ec ∙ ap (λ b. i.consumed ++ b) (sym (fill_whole bytes buffer (size ∙ sym l)))

  Gives-read :
      (r : Role) (x : Result Message) (f : Message → Session Socket)
      → ((m : Message) → x ≡ ok m → Gives i' o' r given expected (ok (f m)))
      → Gives i' o' r given expected (x >>= λ m. ok (f m))
  Gives-read r (ok m) f k = k m refl
  Gives-read r (throw e) f k = tt

  pub read_header-Gives :
      (r : Role) (n : ℕ) (bytes : Bytes)
      → length s.read_buffer.header_buffer ≡ n
      → Was r (async_read_header n)
      → Moves false (async_read_header n) bytes i o i' o'
      → Gives i' o' r given expected (Completed r (async_read_header n) bytes)
  unfolding complete read_header_done ServerSession.on_read_header ClientSession.on_read_header
  read_header-Gives r n bytes l (inn, out, none, fit) (mi, eo) = rw fine (on_header r fit)
    where
      m : Message
      m = record s.read_buffer { header_buffer = fill bytes s.read_buffer.header_buffer }

      got :
          (k : Message)
          → prepare_content_buffer_read indeterminate m ≡ ok k
          → i'.consumed ≡ chunks given ++ k.header_buffer
      got k e =
          read_whole n bytes s.read_buffer.header_buffer l mi
          ∙ ap (λ b. b ++ m.header_buffer) inn
          ∙ ap (λ b. chunks given ++ b) (sym (prepared p h m k e).0)

      on_header :
          (r : Role)
          → Fits r s.write_buffer given
          → Gives i' o' r given expected
              (on_read_header p r (record s { read_buffer = m; pending = []; world = w }))
      on_header server fit =
          Gives-read server (prepare_content_buffer_read indeterminate m) _
            λ k e. (got k e, (still eo out none).0, (still eo out none).1, fit)
      on_header client fit =
          Gives-read client (prepare_content_buffer_read indeterminate m) _
            λ k e. (got k e, (still eo out none).0, (still eo out none).1, fit)
