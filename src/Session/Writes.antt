-- ===== src/Session/Writes.antt =====
-- Which files the completions of a session write: with the handlers of `main`, test.out only.
use text.Mathlib.Text.{◌==◌ as str_eq}
use micro_tcp.Common.{
  List, Bool, if◌then◌else◌, not, ◌∙◌, false, true, String, ◌≡◌, refl, ok, throw, Result, Bytes,
  arith, Bool-cases, inl, inr, ◌>>=◌,
}
use micro_tcp.Platform.{Platform}
use micro_tcp.World.{World, Piece, is_empty, store}
use micro_tcp.Message.{Message}
use micro_tcp.Handlers.{handle_response, example_handlers}
use micro_tcp.Session.{
  Role, server, client, Operation, async_handshake, async_read_header, async_read_content,
  async_write_header, async_write_content, async_shutdown, async_write_null, async_wait, Session,
  stop, debug, do_close_socket,
}
use micro_tcp.Session.ServerSession
use micro_tcp.Session.ClientSession
use micro_tcp.Session.Completion.{
  complete, handshake_done, shutdown_done, read_header_done, read_content_done, write_header_done,
  write_content_done, wait_done, read_failed, on_close_socket, on_read_header, on_secure_handshake,
  on_read_content, on_write_content, on_write_header, on_shutdown_secure_stream,
}

module _ (p : Platform) (path : String) (other : str_eq path "test.out" ≡ false) where
  open p use {Socket, ErrorCode}

  handle_response-files :
      (m : Message) (w : World) → (handle_response m w).files path ≡ w.files path
  unfolding handle_response store
  handle_response-files m w = ground arith

  -- A session that leaves the file as it is in `w`.
  abbrev pub Keeps : World → Session Socket → Type 0
  Keeps w t = t.world.files path ≡ w.files path

  pub Keeps-if :
      (w : World) (b : Bool) (t u : Session Socket)
      → Keeps w t
      → Keeps w u
      → Keeps w (if b then t else u)
  Keeps-if w true t u x y = x
  Keeps-if w false t u x y = y

  debug-files : (msg ec : List Piece) (w : World) → (debug msg ec w).files path ≡ w.files path
  unfolding debug
  debug-files msg ec w = elim (Bool-cases (is_empty ec)) [ inl e ↦ rw e refl | inr e ↦ rw e refl ]

  pub Keeps-stop : (w : World) (s : Session Socket) → Keeps w s → Keeps w (stop p s)
  unfolding stop
  Keeps-stop w s k = Keeps-if w (p.failed (p.cancel s.socket).0) _ _ (debug-files _ _ s.world ∙ k) k

  Keeps-close :
      (r : Role) (w : World) (s : Session Socket)
      → Keeps w s
      → Keeps w (do_close_socket p (on_close_socket example_handlers r) s)
  unfolding do_close_socket ServerSession.on_close_socket ClientSession.on_close_socket
  Keeps-close server w s k =
      Keeps-if w (p.failed (p.close s.socket).0) _ _ (debug-files _ _ s.world ∙ k)
        (debug-files _ _ s.world ∙ k)
  Keeps-close client w s k =
      Keeps-if w (p.failed (p.close s.socket).0) _ _ (debug-files _ _ s.world ∙ k)
        (debug-files _ _ s.world ∙ k)

  Keeps-read_failed :
      (r : Role) (ec : ErrorCode) (s : Session Socket)
      → Keeps s.world (read_failed p example_handlers r ec s)
  Keeps-read_failed r ec s =
      Keeps-if s.world (not (p.is_operation_aborted ec)) _ _
        (Keeps-stop s.world _
          (Keeps-if s.world (not (p.is_eof ec)) _ _ (debug-files _ _ s.world) refl))
        refl

  -- The end of a completion that failed: nothing where it was aborted, or a line and `f`.
  Keeps-failed :
      (ec : ErrorCode) (w : World) (t u : Session Socket)
      → Keeps w t
      → Keeps w u
      → Keeps w (if not (p.is_operation_aborted ec) then t else u)
  Keeps-failed ec w t u x y = Keeps-if w (not (p.is_operation_aborted ec)) t u x y

  Keeps-handshake_done :
      (r : Role) (ec : ErrorCode) (s : Session Socket)
      → Keeps s.world (handshake_done p example_handlers r ec s)
  unfolding handshake_done ServerSession.on_secure_handshake ClientSession.on_secure_handshake
  Keeps-handshake_done r ec s = Keeps-if s.world (not (p.failed ec)) _ _ (greeted r) (
      Keeps-if s.world (not (p.is_operation_aborted ec)) _ _
        (Keeps-close r s.world _ (debug-files _ _ s.world)) refl)
    where
      greeted : (r : Role) → Keeps s.world (on_secure_handshake example_handlers r s)
      greeted server = debug-files _ _ s.world
      greeted client = debug-files _ _ s.world

  -- What the response handler does: it writes test.out, or prints.
  Keeps-read_content :
      (r : Role) (s : Session Socket) → Keeps s.world (on_read_content example_handlers r s)
  unfolding ServerSession.on_read_content ClientSession.on_read_content
  Keeps-read_content server s = debug-files _ _ s.world
  Keeps-read_content client s = handle_response-files _ _ ∙ debug-files _ _ s.world

  Keeps-write_content :
      (r : Role) (s : Session Socket) → Keeps s.world (on_write_content example_handlers r s)
  unfolding ServerSession.on_write_content ClientSession.on_write_content
  Keeps-write_content server s = debug-files _ _ s.world
  Keeps-write_content client s = debug-files _ _ s.world

  Keeps-write_header : (r : Role) (s : Session Socket) → Keeps s.world (on_write_header p r s)
  unfolding ServerSession.on_write_header ClientSession.on_write_header
  Keeps-write_header server s = debug-files _ _ s.world
  Keeps-write_header client s = debug-files _ _ s.world

  Keeps-shutdown : (r : Role) (s : Session Socket) → Keeps s.world (on_shutdown_secure_stream p r s)
  unfolding ServerSession.on_shutdown_secure_stream ClientSession.on_shutdown_secure_stream
  Keeps-shutdown server s = refl
  Keeps-shutdown client s = Keeps-close client s.world _ (debug-files _ _ s.world)

  -- A completion that returns leaves the file as it is.
  abbrev pub Returns : World → Result (Session Socket) → Type 0
  Returns w (ok t) = Keeps w t
  Returns w (throw x) = Unit

  Returns-read :
      (w : World) (o : Result Message) (f : Message → Session Socket)
      → ((m : Message) → Keeps w (f m))
      → Returns w (o >>= λ m. ok (f m))
  Returns-read w (ok m) f k = k m
  Returns-read w (throw x) f k = tt

  Returns-read_header : (r : Role) (s : Session Socket) → Returns s.world (on_read_header p r s)
  unfolding ServerSession.on_read_header ClientSession.on_read_header
  Returns-read_header server s = Returns-read s.world _ _ (λ m. debug-files _ _ s.world)
  Returns-read_header client s = Returns-read s.world _ _ (λ m. debug-files _ _ s.world)

  pub complete-Returns :
      (r : Role) (op : Operation) (ec : ErrorCode) (bytes : Bytes) (s : Session Socket)
      → Returns s.world (complete p example_handlers r op ec bytes s)
  unfolding complete read_content_done write_header_done write_content_done shutdown_done wait_done
      read_header_done ServerSession.null_written
  complete-Returns r (async_handshake type) ec bytes s = Keeps-handshake_done r ec s
  complete-Returns r (async_read_header n) ec bytes s = elim (Bool-cases (p.failed ec)) [
    | inl bad ↦ rw bad (Keeps-read_failed r ec _)
    | inr fine ↦ rw fine (Returns-read_header r _)
  ]
  complete-Returns r (async_read_content n) ec bytes s =
      Keeps-if s.world (not (p.failed ec)) _ _ (Keeps-read_content r _) (Keeps-read_failed r ec _)
  complete-Returns r (async_write_header b) ec bytes s =
      Keeps-if s.world (not (p.failed ec)) _ _ (Keeps-write_header r s)
        (Keeps-failed ec s.world _ s (Keeps-stop s.world _ (debug-files _ _ s.world)) refl)
  complete-Returns r (async_write_content b) ec bytes s =
      Keeps-if s.world (not (p.failed ec)) _ _ (Keeps-write_content r s)
        (Keeps-failed ec s.world _ s (Keeps-stop s.world _ (debug-files _ _ s.world)) refl)
  complete-Returns r async_shutdown ec bytes s =
      Keeps-if s.world (not (p.is_ssl_category ec)) _ _ (Keeps-shutdown r s)
        (Keeps-close r s.world _ (debug-files _ _ s.world))
  complete-Returns r async_write_null ec bytes s =
      Keeps-close server s.world _ (debug-files _ _ s.world)
  complete-Returns r async_wait ec bytes s =
      Keeps-if s.world (not (p.failed ec)) _ _ (Keeps-stop s.world s refl)
        (Keeps-failed ec s.world _ s (debug-files _ _ s.world) refl)
