-- ===== src/Session/Releasing.antt =====
-- What becomes of a session on which `stop` was called, when what is pending completes in any way: also
-- without an error, as where a response arrives before the shutdown.
use mathlib.Core.Path.{subst}
use micro_tcp.World.{World}
use micro_tcp.Common.{
  [], ◌∷◌, ◌++◌, Bool, true, false, not, ◌≡◌, ap, ◌⊎◌, inl, inr, Result, ok, throw, ◌>>=◌, Bytes,
  arith, if◌then◌else◌, Bool-cases,
}
use micro_tcp.Platform.{Platform}
use micro_tcp.Handlers.{Handlers}
use micro_tcp.Message.{Message}
use micro_tcp.Session.{
  Role, server, client, Operation, async_handshake, async_read_header, async_read_content,
  async_write_header, async_write_content, async_shutdown, async_write_null, async_wait, Session,
  stop, do_close_socket,
}
use micro_tcp.Session.ServerSession
use micro_tcp.Session.ClientSession
use micro_tcp.Session.Completion.{
  complete, Completes, handshake_done, shutdown_done, read_header_done, read_content_done,
  write_header_done, write_content_done, wait_done, on_close_socket, on_read_header,
  on_read_content, on_write_header, on_write_content, on_secure_handshake,
  on_shutdown_secure_stream,
}
use micro_tcp.Session.Ending.{closes, will_close, will_close-append, stop-cost, close_cost}
use micro_tcp.Session.Stopping.{IsClosing, will_close-middle}

module _ (p : Platform) (h : Handlers) (r : Role) where
  open p use {Socket, ErrorCode, is_open}

  -- Another operation is begun.
  IsClosing-begun :
      (s : Session Socket) (op : Operation)
      → IsClosing p h r s
      → (is_open s.socket ≡ false) ⊎ (will_close (s.pending ++ op ∷ []) ≡ true)
  IsClosing-begun s op c = ground (arith, will_close-append s.pending (op ∷ []))

  IsClosing-if :
      (b : Bool) (t u : Session Socket)
      → IsClosing p h r t
      → IsClosing p h r u
      → IsClosing p h r (if b then t else u)
  IsClosing-if true t u x y = x
  IsClosing-if false t u x y = y

  pub IsClosing-stop : (s : Session Socket) → IsClosing p h r (stop p s)
  IsClosing-stop s = inr (stop-cost p s).1

  IsClosing-close :
      (s : Session Socket) → IsClosing p h r (do_close_socket p (on_close_socket h r) s)
  IsClosing-close s = inl (close_cost p h r s).1

  -- A completion that returns.
  abbrev pub Closes : Result (Session Socket) → Type 0
  Closes (ok t) = IsClosing p h r t
  Closes (throw e) = Unit

  Closes-read :
      (o : Result Message) (f : Message → Session Socket)
      → ((m : Message) → IsClosing p h r (f m))
      → Closes (o >>= λ m. ok (f m))
  Closes-read (ok m) f k = k m
  Closes-read (throw e) f k = tt

  IsClosing-failed :
      (ec : ErrorCode) (t u : Session Socket)
      → IsClosing p h r u
      → IsClosing p h r (if not (p.is_operation_aborted ec) then stop p t else u)
  IsClosing-failed ec t u c =
      IsClosing-if (not (p.is_operation_aborted ec)) (stop p t) u (IsClosing-stop t) c

module _ (p : Platform) (h : Handlers) where
  open p use {Socket, ErrorCode, is_open}

  Closes-read_header :
      (r : Role) (s : Session Socket) → IsClosing p h r s → Closes p h r (on_read_header p r s)
  unfolding ServerSession.on_read_header ClientSession.on_read_header
  Closes-read_header server s c = Closes-read p h server _ _ (λ m. IsClosing-begun p h server s _ c)
  Closes-read_header client s c = Closes-read p h client _ _ (λ m. IsClosing-begun p h client s _ c)

  IsClosing-read_content :
      (r : Role) (s : Session Socket) → IsClosing p h r s → IsClosing p h r (on_read_content h r s)
  unfolding ServerSession.on_read_content ClientSession.on_read_content
  IsClosing-read_content server s c = IsClosing-begun p h server s _ c
  IsClosing-read_content client s c = c

  IsClosing-write_header :
      (r : Role) (s : Session Socket) → IsClosing p h r s → IsClosing p h r (on_write_header p r s)
  unfolding ServerSession.on_write_header ClientSession.on_write_header
  IsClosing-write_header server s c = IsClosing-begun p h server s _ c
  IsClosing-write_header client s c = IsClosing-begun p h client s _ c

  IsClosing-write_content :
      (r : Role) (s : Session Socket) → IsClosing p h r s → IsClosing p h r (on_write_content h r s)
  unfolding ServerSession.on_write_content ClientSession.on_write_content
  IsClosing-write_content server s c = IsClosing-begun p h server s _ c
  IsClosing-write_content client s c = IsClosing-begun p h client s _ c

  IsClosing-handshake :
      (r : Role) (s : Session Socket)
      → IsClosing p h r s
      → IsClosing p h r (on_secure_handshake h r s)
  unfolding ServerSession.on_secure_handshake ClientSession.on_secure_handshake
  IsClosing-handshake server s c = IsClosing-begun p h server s _ c
  IsClosing-handshake client s c = c

  IsClosing-shutdown :
      (r : Role) (s : Session Socket) → IsClosing p h r (on_shutdown_secure_stream p r s)
  unfolding ServerSession.on_shutdown_secure_stream ClientSession.on_shutdown_secure_stream
      will_close
  IsClosing-shutdown server s =
      inr (ground (arith, will_close-append s.pending (async_write_null ∷ [])))
  IsClosing-shutdown client s = IsClosing-close p h client _

  -- The completion of an operation that goes on to close the socket, or of another one in a session
  -- that is being closed anyway.
  pub complete-Closes :
      (r : Role) (op : Operation) (ec : ErrorCode) (bytes : Bytes) (s : Session Socket)
      → (closes op ≡ true) ⊎ IsClosing p h r s
      → Closes p h r (complete p h r op ec bytes s)
  unfolding complete handshake_done read_header_done read_content_done write_header_done
      write_content_done shutdown_done wait_done ServerSession.null_written
  complete-Closes r (async_handshake type) ec bytes s (inl e) = cc
  complete-Closes r (async_read_header n) ec bytes s (inl e) = cc
  complete-Closes r (async_read_content n) ec bytes s (inl e) = cc
  complete-Closes r (async_write_header b) ec bytes s (inl e) = cc
  complete-Closes r (async_write_content b) ec bytes s (inl e) = cc
  complete-Closes r async_wait ec bytes s (inl e) = cc
  complete-Closes r (async_handshake type) ec bytes s (inr c) =
      IsClosing-if p h r (not (p.failed ec)) _ _ (IsClosing-handshake r s c)
        (IsClosing-if p h r (not (p.is_operation_aborted ec)) _ s (IsClosing-close p h r _) c)
  complete-Closes r (async_read_header n) ec bytes s (inr c) = elim (Bool-cases (p.failed ec)) [
    | inl bad ↦ rw bad (IsClosing-failed p h r ec _ _ c)
    | inr fine ↦ rw fine (Closes-read_header r _ c)
  ]
  complete-Closes r (async_read_content n) ec bytes s (inr c) =
      IsClosing-if p h r (not (p.failed ec)) _ _ (IsClosing-read_content r _ c)
        (IsClosing-failed p h r ec _ _ c)
  complete-Closes r (async_write_header b) ec bytes s (inr c) =
      IsClosing-if p h r (not (p.failed ec)) _ _ (IsClosing-write_header r s c)
        (IsClosing-failed p h r ec _ s c)
  complete-Closes r (async_write_content b) ec bytes s (inr c) =
      IsClosing-if p h r (not (p.failed ec)) _ _ (IsClosing-write_content r s c)
        (IsClosing-failed p h r ec _ s c)
  complete-Closes r async_shutdown ec bytes s c =
      IsClosing-if p h r (not (p.is_ssl_category ec)) _ _ (IsClosing-shutdown r s)
        (IsClosing-close p h r _)
  complete-Closes r async_write_null ec bytes s c = IsClosing-close p h server _
  complete-Closes r async_wait ec bytes s (inr c) =
      IsClosing-if p h r (not (p.failed ec)) _ _ (IsClosing-stop p h r s)
        (IsClosing-if p h r (not (p.is_operation_aborted ec)) _ s c c)

  -- The same for an operation that is pending anywhere in a session on which `stop` was called.
  pub Completes-IsClosing :
      (r : Role) (w : World) (x y : Session Socket)
      → Completes p h r w x y
      → IsClosing p h r x
      → IsClosing p h r y
  Completes-IsClosing r w x y (first, rest, op, ec, bytes, e, g) c =
      let s = record x { pending = first ++ rest; world = w } in
      subst (Closes p h r) g (
        complete-Closes r op ec bytes s
          (ground (arith, will_close-middle p h r first rest op, ap will_close e)))
