-- ===== src/Session/Ending.antt =====
-- How long the end of a session takes: what is pending when `stop` is called, and what is started
-- behind it, whatever the order in which Boost.Asio completes it.
use micro_tcp.Common.{
  ℕ, ◌+◌, ◌*◌, ◌<◌, ◌≤◌, List, [], ◌∷◌, ◌++◌, ◌≡◌, refl, ◌⊎◌, inl, inr, Bool, Bool-cases, true,
  false, ◌||◌, not, Result, ok, throw, Bytes, length, arith, if◌then◌else◌,
}
use micro_tcp.Platform.{Platform}
use micro_tcp.Handlers.{Handlers}
use micro_tcp.Session.{
  Role, server, client, Operation, async_handshake, async_read_header, async_read_content,
  async_write_header, async_write_content, async_shutdown, async_write_null, async_wait, Session,
  log, stop, do_close_socket,
}
use micro_tcp.Session.ServerSession
use micro_tcp.Session.ClientSession
use micro_tcp.Session.Completion.{
  complete, handshake_done, shutdown_done, read_header_done, read_content_done, write_header_done,
  write_content_done, wait_done, read_failed, on_close_socket,
}

-- The completions that an operation can lead to at the end of a session, its own included: a failed
-- transfer leads to a shutdown, and that of a server to the null write.
abbrev pub weight : Operation → ℕ
weight (async_handshake type) = 1
weight (async_read_header n) = 3
weight (async_read_content n) = 3
weight (async_write_header b) = 3
weight (async_write_content b) = 3
weight async_shutdown = 2
weight async_write_null = 1
weight async_wait = 3

unfoldable pub cost : List Operation → ℕ
cost [] = 0
cost (op ∷ ops) = weight op + cost ops

-- The operations whose handlers go on to close the socket, whatever their error codes.
abbrev pub closes : Operation → Bool
closes async_shutdown = true
closes async_write_null = true
closes _ = false

unfoldable pub will_close : List Operation → Bool
will_close [] = false
will_close (op ∷ ops) = closes op || will_close ops

pub cost-append : (a b : List Operation) → cost (a ++ b) ≡ cost a + cost b
unfolding cost
cost-append [] b = omega arith
cost-append (op ∷ a) b = omega (arith, cost-append a b)

pub will_close-append :
    (a b : List Operation) → will_close (a ++ b) ≡ (will_close a || will_close b)
unfolding will_close
will_close-append [] b = refl
will_close-append (op ∷ a) b = ground (arith, will_close-append a b)

pub cost-length : (ops : List Operation) → cost ops ≤ 3 * length ops
unfolding cost
cost-length [] = omega arith
cost-length (op ∷ ops) = ground (arith, cost-length ops)

pub weight_pos : (op : Operation) → 1 ≤ weight op
weight_pos (async_handshake type) = omega arith
weight_pos (async_read_header n) = omega arith
weight_pos (async_read_content n) = omega arith
weight_pos (async_write_header b) = omega arith
weight_pos (async_write_content b) = omega arith
weight_pos async_shutdown = omega arith
weight_pos async_write_null = omega arith
weight_pos async_wait = omega arith

module _ (p : Platform) where
  open p use {Socket, ErrorCode, is_open, failed, is_operation_aborted}

  -- At the end of a session every handshake and transfer fails; a shutdown, a null write and a wait
  -- complete in any way.
  abbrev pub Ends : Operation → ErrorCode → Type 0
  Ends async_shutdown ec = Unit
  Ends async_write_null ec = Unit
  Ends async_wait ec = Unit
  Ends _ ec = failed ec ≡ true

  pub stop-cost :
      (s : Session Socket)
      → (cost (stop p s).pending ≡ cost s.pending + 2)
        × (will_close (stop p s).pending ≡ true)
        × (is_open (stop p s).socket ≡ is_open s.socket)
  unfolding stop cost will_close
  stop-cost s = ground (
    arith,
    p.cancel_keeps_open s.socket,
    cost-append s.pending (async_shutdown ∷ []),
    will_close-append s.pending (async_shutdown ∷ []),
  )

  pub close_cost :
      (h : Handlers) (r : Role) (s : Session Socket)
      → ((do_close_socket p (on_close_socket h r) s).pending ≡ s.pending)
        × (is_open (do_close_socket p (on_close_socket h r) s).socket ≡ false)
  unfolding do_close_socket ServerSession.on_close_socket ClientSession.on_close_socket
  close_cost h server s = ground (arith, p.close_closes s.socket)
  close_cost h client s = ground (arith, p.close_closes s.socket)

  -- What one completion at the end of a session has come to: it has returned, with less to be done;
  -- a closed socket stays closed, and what goes on to close it still does, or has closed it.
  abbrev pub Advances : Session Socket → Operation → Result (Session Socket) → Type 0
  Advances s op (ok t) =
      (cost t.pending < cost s.pending + weight op)
      × (will_close s.pending ≡ true → will_close t.pending ≡ true)
      × (closes op ≡ true → (is_open t.socket ≡ false) ⊎ (will_close t.pending ≡ true))
      × (is_open s.socket ≡ false → is_open t.socket ≡ false)
  Advances s op (throw e) = ⊥

  -- A failed transfer, behind the line that it logs.
  Advances-stopped :
      (op : Operation) (s t : Session Socket)
      → weight op ≡ 3
      → t.pending ≡ s.pending
      → is_open t.socket ≡ is_open s.socket
      → Advances s op (ok (stop p t))
  Advances-stopped op s t w e o = ground (arith, stop-cost t)

  Advances-same :
      (op : Operation) (s t : Session Socket)
      → closes op ≡ false
      → t.pending ≡ s.pending
      → is_open t.socket ≡ is_open s.socket
      → Advances s op (ok t)
  Advances-same op s t n e o = ground (arith, weight_pos op)

  Advances-closed :
      (h : Handlers) (r : Role) (op : Operation) (s t : Session Socket)
      → t.pending ≡ s.pending
      → Advances s op (ok (do_close_socket p (on_close_socket h r) t))
  Advances-closed h r op s t e = ground (arith, weight_pos op, close_cost h r t)

  -- The choice between two ways on.
  Advances-if :
      (b : Bool) (op : Operation) (s t u : Session Socket)
      → Advances s op (ok t)
      → Advances s op (ok u)
      → Advances s op (ok (if b then t else u))
  Advances-if true op s t u x y = x
  Advances-if false op s t u x y = y

  -- The null write that a server starts.
  Advances-null :
      (s : Session Socket)
      → Advances s async_shutdown (ok (ServerSession.on_shutdown_secure_stream s))
  unfolding ServerSession.on_shutdown_secure_stream cost will_close
  Advances-null s = ground (
    arith,
    cost-append s.pending (async_write_null ∷ []),
    will_close-append s.pending (async_write_null ∷ []),
  )

  -- A failed read, where `t` is the session with what was read.
  Advances-read_failed :
      (h : Handlers) (r : Role) (op : Operation) (s t : Session Socket) (ec : ErrorCode)
      → weight op ≡ 3
      → closes op ≡ false
      → t.pending ≡ s.pending
      → is_open t.socket ≡ is_open s.socket
      → Advances s op (ok (read_failed p h r ec t))
  Advances-read_failed h r op s t ec w n e o =
      Advances-if (not (is_operation_aborted ec)) op s _ t
        (Advances-stopped op s _ w (ground arith) (ground arith)) (Advances-same op s t n e o)

  pub complete-Advances :
      (h : Handlers) (r : Role) (op : Operation) (ec : ErrorCode) (bytes : Bytes)
      (s : Session Socket)
      → Ends op ec
      → Advances s op (complete p h r op ec bytes s)
  unfolding complete handshake_done read_header_done read_content_done write_header_done
      write_content_done shutdown_done wait_done ServerSession.null_written
      ServerSession.on_shutdown_secure_stream ClientSession.on_shutdown_secure_stream
  complete-Advances h r (async_handshake type) ec bytes s f = rw f (
      Advances-if _ (async_handshake type) s _ s
        (Advances-closed h r (async_handshake type) s _ refl)
        (Advances-same (async_handshake type) s s refl refl refl))
  complete-Advances h r (async_read_header n) ec bytes s f =
      rw f (Advances-read_failed h r (async_read_header n) s _ ec refl refl refl refl)
  complete-Advances h r (async_read_content n) ec bytes s f =
      rw f (Advances-read_failed h r (async_read_content n) s _ ec refl refl refl refl)
  complete-Advances h r (async_write_header b) ec bytes s f = rw f (
      Advances-if _ (async_write_header b) s _ s
        (Advances-stopped (async_write_header b) s _ refl refl refl)
        (Advances-same (async_write_header b) s s refl refl refl))
  complete-Advances h r (async_write_content b) ec bytes s f = rw f (
      Advances-if _ (async_write_content b) s _ s
        (Advances-stopped (async_write_content b) s _ refl refl refl)
        (Advances-same (async_write_content b) s s refl refl refl))
  complete-Advances h server async_shutdown ec bytes s f =
      elim (Bool-cases (p.is_ssl_category ec)) [
        | inl e ↦ rw e (
            Advances-closed h server async_shutdown s
              (log "Failed to securely shut down the secure (SSL/TLS) protocol on the stream"
                (p.error_message ec) s)
              refl)
        | inr e ↦ rw e (Advances-null s)
      ]
  complete-Advances h client async_shutdown ec bytes s f =
      elim (Bool-cases (p.is_ssl_category ec)) [
        | inl e ↦ rw e (
            Advances-closed h client async_shutdown s
              (log "Failed to securely shut down the secure (SSL/TLS) protocol on the stream"
                (p.error_message ec) s)
              refl)
        | inr e ↦ rw e (
            Advances-closed h client async_shutdown s
              (log "CLIENT | shutting down secure (SSL/TLS) protocol on stream OK" "" s) refl)
      ]
  complete-Advances h r async_write_null ec bytes s f =
      Advances-closed h server async_write_null s
        (log "SERVER | shutting down secure (SSL/TLS) protocol on stream OK" "" s) refl
  complete-Advances h r async_wait ec bytes s f = elim (Bool-cases (failed ec)) [
    | inl e ↦ rw e (
        Advances-if (not (is_operation_aborted ec)) async_wait s
          (log "async_wait failed" (p.error_message ec) s) s
          (Advances-same async_wait s (log "async_wait failed" (p.error_message ec) s) refl refl
            refl)
          (Advances-same async_wait s s refl refl refl))
    | inr e ↦ rw e (Advances-stopped async_wait s s refl refl refl)
  ]
