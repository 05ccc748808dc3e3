-- ===== src/Session/ClientSession.antt =====
-- include/micro_tcp/client_session.hpp and client_session.cpp: the overrides of a client session,
-- `send`, and the timer, which no other code of the program starts.
use micro_tcp.Common.{ℕ, some, Result, ok, ◌>>=◌, ltb, if◌then◌else◌}
use micro_tcp.Platform.{Platform}
use micro_tcp.Message.{
  Message, prepare_header_buffer_write, prepare_content_buffer_write, prepare_header_buffer_read,
  prepare_content_buffer_read, clear,
}
use micro_tcp.Handlers.{Handlers}
use micro_tcp.Session.{
  Session, client, async_wait, log, begin, do_secure_handshake, do_read_header, do_read_content,
  do_write_header, do_write_content, do_close_socket,
}

abbrev pub default_timeout_ms : ℕ
default_timeout_ms = 10000

module _ {S : Type 0} where
  unfoldable pub start : Session S → Session S
  unfolding do_secure_handshake
  start s = do_secure_handshake client s

  unfoldable pub send : Message → Session S → Session S
  unfolding do_write_header
  send message s = do_write_header (record s { write_buffer = prepare_header_buffer_write message })

  unfoldable pub on_secure_handshake : Session S → Session S
  on_secure_handshake s = log "CLIENT | secure handshake OK" "" s

  unfoldable pub on_write_content : Session S → Session S
  unfolding do_read_header
  on_write_content s =
      let s1 = log "CLIENT | write request content OK" "" s in
      do_read_header (record s1 { read_buffer = prepare_header_buffer_read s1.read_buffer })

  unfoldable pub on_read_content : Handlers → Session S → Session S
  on_read_content h s =
      let s1 = log "CLIENT | read response content OK" "" s in
      record s1 {
        world = h.handle_response s1.read_buffer s1.world;
        read_buffer = clear s1.read_buffer;
        write_buffer = clear s1.write_buffer;
      }

  unfoldable pub on_close_socket : Session S → Session S
  on_close_socket s = log "CLIENT | socket close OK" "" s

  unfoldable pub do_timeout : Session S → Session S
  do_timeout s = begin async_wait s

  -- `cancelled` is what `expires_from_now` returns, the number of waits that it cancelled. The
  -- parameter is named for milliseconds and is handed to `boost::posix_time::seconds`.
  unfoldable pub set_timeout_expiry_time : ℕ → ℕ → Session S → Session S
  unfolding do_timeout
  set_timeout_expiry_time cancelled timeout_ms s =
      let s' = record s { timeout = some timeout_ms } in
      if ltb 0 cancelled
      then do_timeout s'
      else log "timer has already expired or was never started at all" " " s'

module _ (p : Platform) where
  open p use {Socket, indeterminate}

  unfoldable pub on_write_header : Session Socket → Session Socket
  unfolding do_write_content
  on_write_header s =
      let s1 = log "CLIENT | write request header OK" "" s in
      do_write_content
        (record s1 { write_buffer = prepare_content_buffer_write indeterminate s1.write_buffer })

  unfoldable pub on_read_header : Session Socket → Result (Session Socket)
  unfolding do_read_content
  on_read_header s = do
    let s1 = log "CLIENT | read response header OK" "" s
    buffer ← prepare_content_buffer_read indeterminate s1.read_buffer
    ok (do_read_content (record s1 { read_buffer = buffer }))

  unfoldable pub on_shutdown_secure_stream : Session Socket → Session Socket
  unfolding do_close_socket on_close_socket
  on_shutdown_secure_stream s =
      do_close_socket p on_close_socket
        (log "CLIENT | shutting down secure (SSL/TLS) protocol on stream OK" "" s)
