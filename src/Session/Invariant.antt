-- ===== src/Session/Invariant.antt =====
-- What is pending on a session, and what its buffers hold then.
use micro_tcp.Common.{
  ℕ, zero, List, [], ◌∷◌, ◌≡◌, refl, ◌∙◌, arith, Bytes, length, Result, ok, throw, Bool-cases, inl,
  inr, length-replicate, length-append, length-take, length-drop, replicate,
}
use micro_tcp.Platform.{Platform}
use micro_tcp.Message.{
  Message, default_header_length, get_header_buffer_content_length, prepare_content_buffer_read,
  prepare_header_buffer_read,
}
use micro_tcp.Message.Content.{
  IsFramed, prepare_header_buffer_write-IsFramed, prepare_content_buffer_write-IsFramed,
  prepare_content_buffer_read_lem,
}
use micro_tcp.Handlers.{Handlers}
use micro_tcp.Session.{
  Role, server, client, Operation, async_handshake, async_read_header, async_read_content,
  async_write_header, async_write_content, async_shutdown, async_write_null, async_wait, Session,
  stop, do_close_socket,
}
use micro_tcp.Session.ServerSession
use micro_tcp.Session.ClientSession
use micro_tcp.Session.Completion.{
  handshake_done, read_failed, read_header_done, read_content_done, write_header_done,
  write_content_done, shutdown_done, complete, on_read_header, fill,
}

module _ (p : Platform) (r : Role) where
  open p use {Socket, indeterminate}

  -- What the buffers `read` and `write` hold while an operation is pending: a header is read into 28
  -- bytes; the content buffer has the size that the header announces; what is written is the
  -- header or the content of a framed message.
  abbrev pub Allows : Message → Message → Operation → Type 0
  Allows read write (async_handshake type) = type ≡ r
  Allows read write (async_read_header n) =
      (n ≡ default_header_length) × (length read.header_buffer ≡ n)
  Allows read write (async_read_content n) =
      (length read.header_buffer ≡ default_header_length)
      × (length read.content_buffer ≡ n)
      × (get_header_buffer_content_length indeterminate read ≡ n)
  Allows read write (async_write_header b) = (b ≡ write.header_buffer) × IsFramed write
  Allows read write (async_write_content b) = (b ≡ write.content_buffer) × IsFramed write
  Allows read write async_shutdown = Unit
  Allows read write async_write_null = r ≡ server
  Allows read write async_wait = ⊥

  abbrev pub AllowsOne : Message → Message → List Operation → Type 0
  AllowsOne read write [] = Unit
  AllowsOne read write (op ∷ []) = Allows read write op
  AllowsOne read write (op ∷ op' ∷ ops) = ⊥

  -- At most one operation is pending, and the buffers fit it.
  abbrev pub IsOrderly : Session Socket → Type 0
  IsOrderly s = AllowsOne s.read_buffer s.write_buffer s.pending

module _ (p : Platform) (h : Handlers) where
  open p use {Socket, indeterminate, ErrorCode}

  pub stop-IsOrderly : (r : Role) (s : Session Socket) → s.pending ≡ [] → IsOrderly p r (stop p s)
  unfolding stop
  stop-IsOrderly r s e = ground arith

  handshake-IsOrderly :
      (r : Role) (ec : ErrorCode) (s : Session Socket)
      → s.pending ≡ []
      → IsOrderly p r (handshake_done p h r ec s)
  unfolding handshake_done ServerSession.on_secure_handshake ClientSession.on_secure_handshake
      do_close_socket ServerSession.on_close_socket ClientSession.on_close_socket
      prepare_header_buffer_read
  handshake-IsOrderly server ec s e = ground arith
  handshake-IsOrderly client ec s e = ground arith

  read_failed-IsOrderly :
      (r : Role) (ec : ErrorCode) (s : Session Socket)
      → s.pending ≡ []
      → IsOrderly p r (read_failed p h r ec s)
  unfolding stop
  read_failed-IsOrderly r ec s e = ground arith

  write_header-IsOrderly :
      (r : Role) (ec : ErrorCode) (s : Session Socket)
      → s.pending ≡ []
      → IsFramed s.write_buffer
      → IsOrderly p r (write_header_done p h r ec s)
  unfolding write_header_done ServerSession.on_write_header ClientSession.on_write_header stop
  write_header-IsOrderly server ec s e f =
      ground (arith, prepare_content_buffer_write-IsFramed indeterminate s.write_buffer)
  write_header-IsOrderly client ec s e f =
      ground (arith, prepare_content_buffer_write-IsFramed indeterminate s.write_buffer)

  write_content-IsOrderly :
      (r : Role) (ec : ErrorCode) (s : Session Socket)
      → s.pending ≡ []
      → IsOrderly p r (write_content_done p h r ec s)
  unfolding write_content_done ServerSession.on_write_content ClientSession.on_write_content stop
      prepare_header_buffer_read
  write_content-IsOrderly server ec s e = ground arith
  write_content-IsOrderly client ec s e = ground arith

  shutdown-IsOrderly :
      (r : Role) (ec : ErrorCode) (s : Session Socket)
      → s.pending ≡ []
      → IsOrderly p r (shutdown_done p h r ec s)
  unfolding shutdown_done ServerSession.on_shutdown_secure_stream
      ClientSession.on_shutdown_secure_stream do_close_socket ServerSession.on_close_socket
      ClientSession.on_close_socket
  shutdown-IsOrderly server ec s e = ground arith
  shutdown-IsOrderly client ec s e = ground arith

  read_content-IsOrderly :
      (r : Role) (ec : ErrorCode) (bytes : Bytes) (s : Session Socket)
      → s.pending ≡ []
      → IsOrderly p r (read_content_done p h r ec bytes s)
  unfolding read_content_done ServerSession.on_read_content ClientSession.on_read_content stop
  read_content-IsOrderly server ec bytes s e =
      let m = record s.read_buffer { content_buffer = fill bytes s.read_buffer.content_buffer } in
      ground (arith, prepare_header_buffer_write-IsFramed (h.handle_request m s.write_buffer))
  read_content-IsOrderly client ec bytes s e = ground arith

  pub length-fill : (bytes buffer : Bytes) → length (fill bytes buffer) ≡ length buffer
  length-fill bytes buffer = omega (
    arith,
    length-append {0},
    length-take (length buffer) bytes,
    length-drop (length bytes) buffer,
  )

  pub content_length_same :
      (old : ℕ) (m : Message) (b : Bytes)
      → get_header_buffer_content_length old (record m { content_buffer = b })
        ≡ get_header_buffer_content_length old m
  unfolding get_header_buffer_content_length
  content_length_same old m b = refl

  -- A content buffer that was prepared has the size that the header announces.
  pub prepared :
      (m n : Message)
      → prepare_content_buffer_read indeterminate m ≡ ok n
      → (n.header_buffer ≡ m.header_buffer)
        × (length n.content_buffer ≡ get_header_buffer_content_length indeterminate n)
  prepared m n e =
      let size = get_header_buffer_content_length indeterminate m in
      ground (
        arith,
        prepare_content_buffer_read_lem indeterminate m,
        content_length_same indeterminate m (replicate size zero),
        length-replicate size zero,
      )

  on_read_header-IsOrderly :
      (r : Role) (s t : Session Socket) (o : Result Message)
      → prepare_content_buffer_read indeterminate s.read_buffer ≡ o
      → s.pending ≡ []
      → length s.read_buffer.header_buffer ≡ default_header_length
      → on_read_header p r s ≡ ok t
      → IsOrderly p r t
  unfolding ServerSession.on_read_header ClientSession.on_read_header
  on_read_header-IsOrderly server s t (ok n) d e l g = ground (arith, prepared s.read_buffer n)
  on_read_header-IsOrderly client s t (ok n) d e l g = ground (arith, prepared s.read_buffer n)
  on_read_header-IsOrderly server s t (throw x) d e l g = ground arith
  on_read_header-IsOrderly client s t (throw x) d e l g = ground arith

  read_header-IsOrderly :
      (r : Role) (ec : ErrorCode) (bytes : Bytes) (s t : Session Socket)
      → s.pending ≡ []
      → length s.read_buffer.header_buffer ≡ default_header_length
      → read_header_done p h r ec bytes s ≡ ok t
      → IsOrderly p r t
  unfolding read_header_done
  read_header-IsOrderly r ec bytes s t e l g =
      let buffer = record s.read_buffer {
        header_buffer = fill bytes s.read_buffer.header_buffer;
      } in
      let s' = record s { read_buffer = buffer } in
      elim (Bool-cases (p.failed ec)) [
        | inl bad ↦ ground (arith, read_failed-IsOrderly r ec s' e)
        | inr good ↦
            on_read_header-IsOrderly r s' t _ refl e (length-fill bytes _ ∙ l) (ground arith)
      ]

  -- A completion of the pending operation leaves a session orderly.
  pub complete-IsOrderly :
      (r : Role) (op : Operation) (ec : ErrorCode) (bytes : Bytes) (s t : Session Socket)
      → Allows p r s.read_buffer s.write_buffer op
      → complete p h r op ec bytes (record s { pending = [] }) ≡ ok t
      → IsOrderly p r t
  unfolding complete ServerSession.null_written do_close_socket ServerSession.on_close_socket
  complete-IsOrderly r (async_handshake type) ec bytes s t a g =
      ground (arith, handshake-IsOrderly r ec (record s { pending = [] }))
  complete-IsOrderly r (async_read_header n) ec bytes s t a g =
      read_header-IsOrderly r ec bytes (record s { pending = [] }) t refl (omega arith) g
  complete-IsOrderly r (async_read_content n) ec bytes s t a g =
      ground (arith, read_content-IsOrderly r ec bytes (record s { pending = [] }))
  complete-IsOrderly r (async_write_header b) ec bytes s t a g =
      ground (arith, write_header-IsOrderly r ec (record s { pending = [] }))
  complete-IsOrderly r (async_write_content b) ec bytes s t a g =
      ground (arith, write_content-IsOrderly r ec (record s { pending = [] }))
  complete-IsOrderly r async_shutdown ec bytes s t a g =
      ground (arith, shutdown-IsOrderly r ec (record s { pending = [] }))
  complete-IsOrderly r async_write_null ec bytes s t a g = ground arith
  complete-IsOrderly r async_wait ec bytes s t a g = absurd a
