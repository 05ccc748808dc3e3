-- ===== src/Session.antt =====
-- include/micro_tcp/session.hpp and session.cpp: the base class of the two sessions. A session
-- starts asynchronous operations and returns; the handler of an operation runs when Boost.Asio
-- completes it (Session/Completion.antt). `pending` holds the operations that are started and not
-- completed, the oldest first. The handlers of one session run one at a time, in its strand.
pub mod ServerSession
pub mod ClientSession
pub mod Completion
pub mod Invariant
pub mod Traces
pub mod Closing
pub mod Transfer
pub mod Service
pub mod Exchange
pub mod Life
pub mod Ending
pub mod Stopping
pub mod Conversation
pub mod Throwing
pub mod Writes
pub mod Releasing
pub mod Adding
use micro_tcp.Common.{
  ℕ, Bool, true, false, List, [], ◌∷◌, ◌++◌, Option, none, String, Bytes, length, if◌then◌else◌,
}
use micro_tcp.World.{World, Piece, Line, lit, cout, cerr, print, is_empty}
use micro_tcp.Message.{Message, default_message}
use micro_tcp.Platform.{Platform}

-- The two classes that derive from `session`, and the types of the handshake.
pub data Role : Type 0 where
  server client : Role

-- The asynchronous operations, with the size of the buffer that is read into or the bytes of the
-- buffer that is written. `async_write_null` writes `boost::asio::null_buffers()`, and
-- `async_wait` waits for the timer.
pub data Operation : Type 0 where
  async_handshake : Role → Operation
  async_read_header : ℕ → Operation
  async_read_content : ℕ → Operation
  async_write_header : Bytes → Operation
  async_write_content : Bytes → Operation
  async_shutdown : Operation
  async_write_null : Operation
  async_wait : Operation

-- `timeout` is the timer of a client session: the seconds it was last set to.
pub record Session (S : Type 0) : Type 0 where
  pub read_buffer : Message
  pub write_buffer : Message
  pub socket : S
  pub timeout : Option ℕ
  pub pending : List Operation
  pub world : World

-- The line goes to `std::cerr` behind an error text, and to `std::cout` if that text is empty. The
-- time stamp in front of both is left out.
unfoldable pub debug : List Piece → List Piece → World → World
debug msg ec w =
    if is_empty ec
    then print (cout (lit "[host:port] | " ∷ msg)) w
    else print (cerr (lit "[host:port] | " ∷ (msg ++ lit " | Error code: " ∷ ec))) w

-- The constructor: two default messages, and the socket that is moved in.
unfoldable pub session : {S : Type 0} → S → World → Session S
session socket w = record {
  read_buffer = default_message;
  write_buffer = default_message;
  socket = socket;
  timeout = none;
  pending = [];
  world = w;
}

module _ {S : Type 0} where
  abbrev pub log : String → String → Session S → Session S
  log msg ec s = record s { world = debug (lit msg ∷ []) (lit ec ∷ []) s.world }

  abbrev pub begin : Operation → Session S → Session S
  begin op s = record s { pending = s.pending ++ op ∷ [] }

  unfoldable pub do_secure_handshake : Role → Session S → Session S
  do_secure_handshake type s = begin (async_handshake type) s

  unfoldable pub do_read_header : Session S → Session S
  do_read_header s = begin (async_read_header (length s.read_buffer.header_buffer)) s

  unfoldable pub do_read_content : Session S → Session S
  do_read_content s = begin (async_read_content (length s.read_buffer.content_buffer)) s

  unfoldable pub do_write_header : Session S → Session S
  do_write_header s = begin (async_write_header s.write_buffer.header_buffer) s

  unfoldable pub do_write_content : Session S → Session S
  do_write_content s = begin (async_write_content s.write_buffer.content_buffer) s

  unfoldable pub do_shutdown_secure_stream : Session S → Session S
  do_shutdown_secure_stream s = begin async_shutdown s

module _ (p : Platform) where
  open p use {Socket, ErrorCode, failed, error_message, is_open, cancel, close}

  -- Cancels the socket's operations, which Boost.Asio then completes with `operation_aborted`.
  unfoldable pub stop : Session Socket → Session Socket
  unfolding do_shutdown_secure_stream
  stop s =
      let (ec, sock) = cancel s.socket in
      let s' = record s { socket = sock } in
      do_shutdown_secure_stream
        (if failed ec then log "Error cancelling socket" (error_message ec) s' else s')

  -- `on_close_socket` is the override of the session's class.
  unfoldable pub do_close_socket :
      (Session Socket → Session Socket) → Session Socket → Session Socket
  do_close_socket on_close_socket s =
      let (ec, sock) = close s.socket in
      let s' = record s { socket = sock } in
      if failed ec then log "Error closing socket" (error_message ec) s' else on_close_socket s'

  unfoldable pub is_alive : Session Socket → Bool
  is_alive s = is_open s.socket
