-- ===== src/Session/Closing.antt =====
-- How a session ends: from a failed operation, or from `stop`, to the closed socket.
use micro_tcp.Common.{
  Bool, true, false, [], ◌∷◌, append-nil, ◌≡◌, ok, throw, ◌>>=◌, Result, Bytes, arith,
}
use micro_tcp.Platform.{Platform}
use micro_tcp.Handlers.{Handlers}
use micro_tcp.Session.{
  Role, server, client, Operation, async_handshake, async_read_header, async_read_content,
  async_write_header, async_write_content, async_shutdown, Session, stop, do_close_socket,
}
use micro_tcp.Session.ServerSession
use micro_tcp.Session.ClientSession
use micro_tcp.Session.Completion.{
  complete, handshake_done, next, run, shutdown_done, read_header_done, read_content_done,
  write_header_done, write_content_done,
}

-- The operations that move the bytes of a message.
abbrev pub is_transfer : Operation → Bool
is_transfer (async_read_header n) = true
is_transfer (async_read_content n) = true
is_transfer (async_write_header b) = true
is_transfer (async_write_content b) = true
is_transfer _ = false

module _ (p : Platform) (h : Handlers) where
  open p use {Socket, ErrorCode, is_open, failed, is_operation_aborted}

  -- The run returns with these bytes of successful writes, the socket is closed and nothing is pending.
  abbrev pub IsClosed : Bytes → Result (Session Socket × Bytes) → Type 0
  IsClosed sent (ok (s, out)) = (is_open s.socket ≡ false) × (s.pending ≡ []) × (out ≡ sent)
  IsClosed sent (throw e) = ⊥

  IsClosed-shutdown :
      (r : Role) (s : Session Socket) (out : Bytes) (e1 e2 : ErrorCode) (b1 b2 : Bytes)
      → s.pending ≡ async_shutdown ∷ []
      → IsClosed out (run p h r ((e1, b1) ∷ (e2, b2) ∷ []) (s, out))
  unfolding run next complete shutdown_done ServerSession.null_written
      ServerSession.on_shutdown_secure_stream ClientSession.on_shutdown_secure_stream
      do_close_socket ServerSession.on_close_socket ClientSession.on_close_socket
  IsClosed-shutdown server s out e1 e2 b1 b2 e =
      ground (arith, append-nil out, p.close_closes s.socket)
  IsClosed-shutdown client s out e1 e2 b1 b2 e =
      ground (arith, append-nil out, p.close_closes s.socket)

  -- The shutdown is the only operation pending.
  abbrev IsStopping : Bytes → Result (Session Socket × Bytes) → Type 0
  IsStopping sent (ok (s, out)) = (s.pending ≡ async_shutdown ∷ []) × (out ≡ sent)
  IsStopping sent (throw e) = ⊥

  IsClosed-stopping :
      (r : Role) (sent : Bytes) (o : Result (Session Socket × Bytes)) (e1 e2 : ErrorCode)
      (b1 b2 : Bytes)
      → IsStopping sent o
      → IsClosed sent (o >>= run p h r ((e1, b1) ∷ (e2, b2) ∷ []))
  IsClosed-stopping r sent (ok (s, out)) e1 e2 b1 b2 (e, same) =
      rw (← same) (IsClosed-shutdown r s out e1 e2 b1 b2 e)
  IsClosed-stopping r sent (throw x) e1 e2 b1 b2 e = absurd e

  -- A failed transfer starts the shutdown.
  IsStopping-failed :
      (r : Role) (op : Operation) (s : Session Socket) (out : Bytes) (ec : ErrorCode)
      (bytes : Bytes)
      → s.pending ≡ op ∷ []
      → is_transfer op ≡ true
      → failed ec ≡ true
      → is_operation_aborted ec ≡ false
      → IsStopping out (next p h r (ec, bytes) (s, out))
  unfolding next complete read_header_done read_content_done write_header_done write_content_done
      stop
  IsStopping-failed r (async_read_header n) s out ec bytes e x f a = ground (arith, append-nil out)
  IsStopping-failed r (async_read_content n) s out ec bytes e x f a = ground (arith, append-nil out)
  IsStopping-failed r (async_write_header b) s out ec bytes e x f a = ground (arith, append-nil out)
  IsStopping-failed r (async_write_content b) s out ec bytes e x f a =
      ground (arith, append-nil out)
  IsStopping-failed r _ s out ec bytes e x f a = cc

-- When the pending read or write of a server or client session fails with any error but
-- operation_aborted, the completions of the shutdown and, for a server, of the null write, with
-- whatever error codes, lead to a closed socket and nothing pending, and no write has succeeded.
pub failure_closes :
    (p : Platform) (h : Handlers) (r : Role) (op : Operation) (s : Session p.Socket) (out : Bytes)
    (ec e1 e2 : p.ErrorCode) (bytes b1 b2 : Bytes)
    → s.pending ≡ op ∷ []
    → is_transfer op ≡ true
    → p.failed ec ≡ true
    → p.is_operation_aborted ec ≡ false
    → IsClosed p h out (run p h r ((ec, bytes) ∷ (e1, b1) ∷ (e2, b2) ∷ []) (s, out))
failure_closes p h r op s out ec e1 e2 bytes b1 b2 e x f a =
    unfold run in
    IsClosed-stopping p h r out (next p h r (ec, bytes) (s, out)) e1 e2 b1 b2
      (IsStopping-failed p h r op s out ec bytes e x f a)

-- `stop` of a session with nothing pending, as `client::disconnect` calls it on an idle session,
-- closes the socket in the same way.
pub stop_closes :
    (p : Platform) (h : Handlers) (r : Role) (s : Session p.Socket) (out : Bytes)
    (e1 e2 : p.ErrorCode) (b1 b2 : Bytes)
    → s.pending ≡ []
    → IsClosed p h out (run p h r ((e1, b1) ∷ (e2, b2) ∷ []) (stop p s, out))
unfolding stop
stop_closes p h r s out e1 e2 b1 b2 e =
    IsClosed-shutdown p h r (stop p s) out e1 e2 b1 b2 (ground arith)

-- A handshake that fails with any error but `operation_aborted` closes the socket at once, without a
-- shutdown of the secure stream; nothing is pending and nothing is sent.
pub handshake_failure_closes :
    (p : Platform) (h : Handlers) (r type : Role) (s : Session p.Socket) (out : Bytes)
    (ec : p.ErrorCode) (bytes : Bytes)
    → s.pending ≡ async_handshake type ∷ []
    → p.failed ec ≡ true
    → p.is_operation_aborted ec ≡ false
    → IsClosed p h out (run p h r ((ec, bytes) ∷ []) (s, out))
unfolding run next complete handshake_done do_close_socket ServerSession.on_close_socket
    ClientSession.on_close_socket
handshake_failure_closes p h server type s out ec bytes e f a =
    ground (arith, append-nil out, p.close_closes s.socket)
handshake_failure_closes p h client type s out ec bytes e f a =
    ground (arith, append-nil out, p.close_closes s.socket)
