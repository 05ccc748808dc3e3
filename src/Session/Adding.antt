-- ===== src/Session/Adding.antt =====
-- A completion adds operations behind those that are pending, and depends on nothing else of them.
use micro_tcp.Common.{
  Bool, true, false, not, List, [], ◌++◌, append-nil, Result, throw, ok, ◌>>=◌, ◌≡◌, refl, ap,
  Bytes, inl, inr, if◌then◌else◌, Bool-cases,
}
use micro_tcp.Platform.{Platform}
use micro_tcp.Message.{Message}
use micro_tcp.Handlers.{Handlers}
use micro_tcp.Session.{
  Role, server, client, Operation, async_handshake, async_read_header, async_read_content,
  async_write_header, async_write_content, async_shutdown, async_write_null, async_wait, Session,
  log, stop, do_close_socket,
}
use micro_tcp.Session.ServerSession
use micro_tcp.Session.ClientSession
use micro_tcp.Session.Completion.{
  complete, fill, handshake_done, read_header_done, read_content_done, write_header_done,
  write_content_done, shutdown_done, wait_done, on_close_socket, read_failed,
}

module _ {S : Type 0} (rest : List Operation) where
  -- The operations of a session are pending behind `rest`.
  abbrev pub behind_rest : Session S → Session S
  behind_rest t = record t { pending = rest ++ t.pending }

  abbrev pub all_behind : Result (Session S) → Result (Session S)
  all_behind (ok t) = ok (behind_rest t)
  all_behind (throw e) = throw e

  if-behind :
      (b : Bool) (x y x' y' : Session S)
      → x ≡ behind_rest x'
      → y ≡ behind_rest y'
      → (if b then x else y) ≡ behind_rest (if b then x' else y')
  if-behind true x y x' y' e f = e
  if-behind false x y x' y' e f = f

module _ (p : Platform) (h : Handlers) (rest : List Operation) where
  open p use {Socket, ErrorCode, failed, is_operation_aborted}

  abbrev On : Session Socket → Session Socket
  On s = record s { pending = rest }

  abbrev Alone : Session Socket → Session Socket
  Alone s = record s { pending = [] }

  stop-behind : (s : Session Socket) → stop p (On s) ≡ behind_rest rest (stop p (Alone s))
  unfolding stop
  stop-behind s = elim (Bool-cases (failed (p.cancel s.socket).0)) [ inl e ↦ rw e | inr e ↦ rw e ]

  close-behind :
      (r : Role) (s : Session Socket)
      → do_close_socket p (on_close_socket h r) (On s)
        ≡ behind_rest rest (do_close_socket p (on_close_socket h r) (Alone s))
  unfolding do_close_socket ServerSession.on_close_socket ClientSession.on_close_socket
  close-behind server s = elim (Bool-cases (failed (p.close s.socket).0)) [
    | inl e ↦ rw (e, append-nil)
    | inr e ↦ rw (e, append-nil)
  ]
  close-behind client s = elim (Bool-cases (failed (p.close s.socket).0)) [
    | inl e ↦ rw (e, append-nil)
    | inr e ↦ rw (e, append-nil)
  ]

  on-behind : (s : Session Socket) → On s ≡ behind_rest rest (Alone s)
  on-behind s = rw append-nil

  abbrev filled : Bytes → Session Socket → Session Socket
  filled bytes s = record s {
    read_buffer = record s.read_buffer { content_buffer = fill bytes s.read_buffer.content_buffer };
  }

  abbrev headed : Bytes → Session Socket → Session Socket
  headed bytes s = record s {
    read_buffer = record s.read_buffer { header_buffer = fill bytes s.read_buffer.header_buffer };
  }

  abbrev unshut : ErrorCode → Session Socket → Session Socket
  unshut ec s =
      log "Failed to securely shut down the secure (SSL/TLS) protocol on the stream"
        (p.error_message ec) s

  -- Behind a failure: the session stops, or goes on as it is.
  stops-behind :
      (ec : ErrorCode) (s x : Session Socket)
      → (if not (is_operation_aborted ec) then stop p (On s) else On x)
        ≡ behind_rest rest (if not (is_operation_aborted ec) then stop p (Alone s) else Alone x)
  stops-behind ec s x =
      if-behind rest (not (is_operation_aborted ec)) _ _ _ _ (stop-behind s) (on-behind x)

  handshake-behind :
      (r : Role) (ec : ErrorCode) (s : Session Socket)
      → handshake_done p h r ec (On s) ≡ behind_rest rest (handshake_done p h r ec (Alone s))
  unfolding handshake_done ServerSession.on_secure_handshake ClientSession.on_secure_handshake
  handshake-behind server ec s = if-behind rest (not (failed ec)) _ _ _ _ refl (
      if-behind rest (not (is_operation_aborted ec)) _ _ _ _
        (close-behind server (log "Error on secure handshake" (p.error_message ec) s))
        (on-behind s))
  handshake-behind client ec s =
      if-behind rest (not (failed ec)) _ _ _ _ (on-behind (log "CLIENT | secure handshake OK" "" s))
        (if-behind rest (not (is_operation_aborted ec)) _ _ _ _
          (close-behind client (log "Error on secure handshake" (p.error_message ec) s))
          (on-behind s))

  read_failed-behind :
      (r : Role) (ec : ErrorCode) (s : Session Socket)
      → read_failed p h r ec (On s) ≡ behind_rest rest (read_failed p h r ec (Alone s))
  read_failed-behind r ec s = elim (Bool-cases (p.is_eof ec)) [
    | inl e ↦ rw e (stops-behind ec s s)
    | inr e ↦ rw e (stops-behind ec (log "Error reading content" (p.error_message ec) s) s)
  ]

  write_header-behind :
      (r : Role) (ec : ErrorCode) (s : Session Socket)
      → write_header_done p h r ec (On s) ≡ behind_rest rest (write_header_done p h r ec (Alone s))
  unfolding write_header_done ServerSession.on_write_header ClientSession.on_write_header
  write_header-behind server ec s =
      if-behind rest (not (failed ec)) _ _ _ _ refl
        (stops-behind ec (log "Error writing header" (p.error_message ec) s) s)
  write_header-behind client ec s =
      if-behind rest (not (failed ec)) _ _ _ _ refl
        (stops-behind ec (log "Error writing header" (p.error_message ec) s) s)

  write_content-behind :
      (r : Role) (ec : ErrorCode) (s : Session Socket)
      → write_content_done p h r ec (On s)
        ≡ behind_rest rest (write_content_done p h r ec (Alone s))
  unfolding write_content_done ServerSession.on_write_content ClientSession.on_write_content
  write_content-behind server ec s =
      if-behind rest (not (failed ec)) _ _ _ _ refl
        (stops-behind ec (log "Error writing content" (p.error_message ec) s) s)
  write_content-behind client ec s =
      if-behind rest (not (failed ec)) _ _ _ _ refl
        (stops-behind ec (log "Error writing content" (p.error_message ec) s) s)

  read_content-behind :
      (r : Role) (ec : ErrorCode) (bytes : Bytes) (s : Session Socket)
      → read_content_done p h r ec bytes (On s)
        ≡ behind_rest rest (read_content_done p h r ec bytes (Alone s))
  unfolding read_content_done ServerSession.on_read_content ClientSession.on_read_content
  read_content-behind server ec bytes s =
      if-behind rest (not (failed ec)) _ _ _ _ refl (read_failed-behind server ec (filled bytes s))
  read_content-behind client ec bytes s =
      if-behind rest (not (failed ec)) _ _ _ _
        (on-behind (ClientSession.on_read_content h (filled bytes s)))
        (read_failed-behind client ec (filled bytes s))

  read-behind :
      (x : Result Message) (f g : Message → Session Socket)
      → ((m : Message) → f m ≡ behind_rest rest (g m))
      → (x >>= λ m. ok (f m)) ≡ all_behind rest (x >>= λ m. ok (g m))
  read-behind (ok m) f g e = ap ok (e m)
  read-behind (throw x) f g e = refl

  read_header-behind :
      (r : Role) (ec : ErrorCode) (bytes : Bytes) (s : Session Socket)
      → read_header_done p h r ec bytes (On s)
        ≡ all_behind rest (read_header_done p h r ec bytes (Alone s))
  unfolding read_header_done ServerSession.on_read_header ClientSession.on_read_header
  read_header-behind server ec bytes s = elim (Bool-cases (failed ec)) [
    | inl e ↦ rw e (ap ok (read_failed-behind server ec (headed bytes s)))
    | inr e ↦ rw e (read-behind _ _ _ λ m. refl)
  ]
  read_header-behind client ec bytes s = elim (Bool-cases (failed ec)) [
    | inl e ↦ rw e (ap ok (read_failed-behind client ec (headed bytes s)))
    | inr e ↦ rw e (read-behind _ _ _ λ m. refl)
  ]

  shutdown-behind :
      (r : Role) (ec : ErrorCode) (s : Session Socket)
      → shutdown_done p h r ec (On s) ≡ behind_rest rest (shutdown_done p h r ec (Alone s))
  unfolding shutdown_done ServerSession.on_shutdown_secure_stream
      ClientSession.on_shutdown_secure_stream
  shutdown-behind server ec s =
      if-behind rest (not (p.is_ssl_category ec)) _ _ _ _ refl (close-behind server (unshut ec s))
  shutdown-behind client ec s =
      if-behind rest (not (p.is_ssl_category ec)) _ _ _ _
        (close-behind client
          (log "CLIENT | shutting down secure (SSL/TLS) protocol on stream OK" "" s))
        (close-behind client (unshut ec s))

  wait-behind :
      (r : Role) (ec : ErrorCode) (s : Session Socket)
      → wait_done p h r ec (On s) ≡ behind_rest rest (wait_done p h r ec (Alone s))
  unfolding wait_done
  wait-behind r ec s = if-behind rest (not (failed ec)) _ _ _ _ (stop-behind s) (
      if-behind rest (not (is_operation_aborted ec)) _ _ _ _
        (on-behind (log "async_wait failed" (p.error_message ec) s)) (on-behind s))

  pub complete-behind :
      (r : Role) (op : Operation) (ec : ErrorCode) (bytes : Bytes) (s : Session Socket)
      → complete p h r op ec bytes (record s { pending = rest })
        ≡ all_behind rest (complete p h r op ec bytes (record s { pending = [] }))
  unfolding complete ServerSession.null_written
  complete-behind r (async_handshake type) ec bytes s = ap ok (handshake-behind r ec s)
  complete-behind r (async_read_header n) ec bytes s = read_header-behind r ec bytes s
  complete-behind r (async_read_content n) ec bytes s = ap ok (read_content-behind r ec bytes s)
  complete-behind r (async_write_header b) ec bytes s = ap ok (write_header-behind r ec s)
  complete-behind r (async_write_content b) ec bytes s = ap ok (write_content-behind r ec s)
  complete-behind r async_shutdown ec bytes s = ap ok (shutdown-behind r ec s)
  complete-behind r async_write_null ec bytes s = ap ok (
      close-behind server
        (log "SERVER | shutting down secure (SSL/TLS) protocol on stream OK" "" s))
  complete-behind r async_wait ec bytes s = ap ok (wait-behind r ec s)
