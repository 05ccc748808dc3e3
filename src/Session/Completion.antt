-- ===== src/Session/Completion.antt =====
-- The completion handlers that include/micro_tcp/session.cpp hands to Boost.Asio, with the virtual
-- calls resolved by the class of the session, and the runs of a session.
use micro_tcp.Common.{
  ◌≡◌, not, List, [], ◌∷◌, ◌++◌, Bytes, length, take, drop, if◌then◌else◌, Result, ok, ◌>>=◌,
}
use micro_tcp.Platform.{Platform}
use micro_tcp.World.{World}
use micro_tcp.Handlers.{Handlers}
use micro_tcp.Session.{
  Role, server, client, Operation, async_handshake, async_read_header, async_read_content,
  async_write_header, async_write_content, async_shutdown, async_write_null, async_wait, Session,
  log, stop, do_close_socket,
}
use micro_tcp.Session.ServerSession
use micro_tcp.Session.ClientSession

-- What a read that transferred `bytes` leaves in a buffer.
abbrev pub fill : Bytes → Bytes → Bytes
fill bytes buffer = take (length buffer) bytes ++ drop (length bytes) buffer

-- The virtual calls.
module _ {S : Type 0} (h : Handlers) where
  abbrev pub on_secure_handshake : Role → Session S → Session S
  on_secure_handshake server s = ServerSession.on_secure_handshake s
  on_secure_handshake client s = ClientSession.on_secure_handshake s

  abbrev pub on_read_content : Role → Session S → Session S
  on_read_content server s = ServerSession.on_read_content h s
  on_read_content client s = ClientSession.on_read_content h s

  abbrev pub on_write_content : Role → Session S → Session S
  on_write_content server s = ServerSession.on_write_content s
  on_write_content client s = ClientSession.on_write_content s

  abbrev pub on_close_socket : Role → Session S → Session S
  on_close_socket server s = ServerSession.on_close_socket s
  on_close_socket client s = ClientSession.on_close_socket s

module _ (p : Platform) where
  open p use {
    Socket, ErrorCode, failed, is_operation_aborted, is_eof, is_ssl_category, error_message,
  }

  abbrev pub on_read_header : Role → Session Socket → Result (Session Socket)
  on_read_header server s = ServerSession.on_read_header p s
  on_read_header client s = ClientSession.on_read_header p s

  abbrev pub on_write_header : Role → Session Socket → Session Socket
  on_write_header server s = ServerSession.on_write_header p s
  on_write_header client s = ClientSession.on_write_header p s

  abbrev pub on_shutdown_secure_stream : Role → Session Socket → Session Socket
  on_shutdown_secure_stream server s = ServerSession.on_shutdown_secure_stream s
  on_shutdown_secure_stream client s = ClientSession.on_shutdown_secure_stream p s

module _ (p : Platform) (h : Handlers) (r : Role) where
  open p use {
    Socket, ErrorCode, failed, is_operation_aborted, is_eof, is_ssl_category, error_message,
  }

  unfoldable pub handshake_done : ErrorCode → Session Socket → Session Socket
  handshake_done ec s =
      if not (failed ec)
      then on_secure_handshake h r s
      else if not (is_operation_aborted ec)
      then do_close_socket p (on_close_socket h r)
          (log "Error on secure handshake" (error_message ec) s)
      else s

  -- The end of a failed read.
  abbrev pub read_failed : ErrorCode → Session Socket → Session Socket
  read_failed ec s =
      if not (is_operation_aborted ec)
      then stop p (if not (is_eof ec) then log "Error reading content" (error_message ec) s else s)
      else s

  unfoldable pub read_header_done : ErrorCode → Bytes → Session Socket → Result (Session Socket)
  read_header_done ec bytes s =
      let buffer = record s.read_buffer {
        header_buffer = fill bytes s.read_buffer.header_buffer;
      } in
      let s' = record s { read_buffer = buffer } in
      if not (failed ec) then on_read_header p r s' else ok (read_failed ec s')

  unfoldable pub read_content_done : ErrorCode → Bytes → Session Socket → Session Socket
  read_content_done ec bytes s =
      let buffer = record s.read_buffer {
        content_buffer = fill bytes s.read_buffer.content_buffer;
      } in
      let s' = record s { read_buffer = buffer } in
      if not (failed ec) then on_read_content h r s' else read_failed ec s'

  unfoldable pub write_header_done : ErrorCode → Session Socket → Session Socket
  write_header_done ec s =
      if not (failed ec)
      then on_write_header p r s
      else if not (is_operation_aborted ec)
      then stop p (log "Error writing header" (error_message ec) s)
      else s

  unfoldable pub write_content_done : ErrorCode → Session Socket → Session Socket
  write_content_done ec s =
      if not (failed ec)
      then on_write_content h r s
      else if not (is_operation_aborted ec)
      then stop p (log "Error writing content" (error_message ec) s)
      else s

  unfoldable pub shutdown_done : ErrorCode → Session Socket → Session Socket
  shutdown_done ec s =
      if not (is_ssl_category ec)
      then on_shutdown_secure_stream p r s
      else do_close_socket p (on_close_socket h r) (
          log "Failed to securely shut down the secure (SSL/TLS) protocol on the stream"
            (error_message ec) s)

  -- The handler of the timer, of include/micro_tcp/client_session.cpp.
  unfoldable pub wait_done : ErrorCode → Session Socket → Session Socket
  wait_done ec s =
      if not (failed ec)
      then stop p s
      else if not (is_operation_aborted ec)
      then log "async_wait failed" (error_message ec) s
      else s

  -- The handler of an operation that Boost.Asio completes with an error code and, for a read, the
  -- bytes that were transferred.
  unfoldable pub complete : Operation → ErrorCode → Bytes → Session Socket → Result (Session Socket)
  complete (async_handshake type) ec bytes s = ok (handshake_done ec s)
  complete (async_read_header n) ec bytes s = read_header_done ec bytes s
  complete (async_read_content n) ec bytes s = ok (read_content_done ec bytes s)
  complete (async_write_header b) ec bytes s = ok (write_header_done ec s)
  complete (async_write_content b) ec bytes s = ok (write_content_done ec s)
  complete async_shutdown ec bytes s = ok (shutdown_done ec s)
  complete async_write_null ec bytes s = ok (ServerSession.null_written p s)
  complete async_wait ec bytes s = ok (wait_done ec s)

  -- A session completes one of the operations that are pending, in this world, and returns.
  abbrev pub Completes : World → Session Socket → Session Socket → Type 0
  Completes w x y =
      (first : List Operation) × (rest : List Operation) × (op : Operation) × (ec : ErrorCode)
      × (bytes : Bytes) × (x.pending ≡ first ++ op ∷ rest)
      × (complete op ec bytes (record x { pending = first ++ rest; world = w }) ≡ ok y)

  -- The bytes of a write that completes without an error. Of a failed write the peer may have
  -- received a part, which is left out.
  abbrev pub sent : Operation → ErrorCode → Bytes
  sent (async_write_header b) ec = if failed ec then [] else b
  sent (async_write_content b) ec = if failed ec then [] else b
  sent _ ec = []

  -- A run completes the oldest pending operation with each event in turn, and collects the bytes of
  -- the writes that succeed. An event that no operation is pending for changes nothing.
  unfoldable pub next : ErrorCode × Bytes → Session Socket × Bytes → Result (Session Socket × Bytes)
  next (ec, bytes) (s, out) = elim s.pending [
    | [] ↦ ok (s, out)
    | op ∷ ops ↦ do
      s' ← complete op ec bytes (record s { pending = ops })
      ok (s', out ++ sent op ec)
  ]

  unfoldable pub run :
      List (ErrorCode × Bytes) → Session Socket × Bytes → Result (Session Socket × Bytes)
  run [] x = ok x
  run (e ∷ es) x = do x' ← next e x; run es x'
