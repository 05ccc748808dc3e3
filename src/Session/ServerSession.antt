-- ===== src/Session/ServerSession.antt =====
-- include/micro_tcp/server_session.hpp and server_session.cpp: the overrides of a server session.
use micro_tcp.Common.{Result, ok, ◌>>=◌}
use micro_tcp.Platform.{Platform}
use micro_tcp.Message.{
  prepare_header_buffer_write, prepare_content_buffer_write, prepare_header_buffer_read,
  prepare_content_buffer_read, clear,
}
use micro_tcp.Handlers.{Handlers}
use micro_tcp.Session.{
  Session, server, async_write_null, log, begin, do_secure_handshake, do_read_header,
  do_read_content, do_write_header, do_write_content, do_close_socket,
}

module _ {S : Type 0} where
  unfoldable pub start : Session S → Session S
  unfolding do_secure_handshake
  start s = do_secure_handshake server s

  unfoldable pub on_secure_handshake : Session S → Session S
  unfolding do_read_header
  on_secure_handshake s =
      let s1 = log "SERVER | secure handshake OK" "" s in
      do_read_header (record s1 { read_buffer = prepare_header_buffer_read s1.read_buffer })

  -- The write of no bytes is expected to fail once the peer has closed; its handler ignores the
  -- error code.
  unfoldable pub on_shutdown_secure_stream : Session S → Session S
  on_shutdown_secure_stream s = begin async_write_null s

  unfoldable pub on_close_socket : Session S → Session S
  on_close_socket s = log "SERVER | socket close OK" "" s

  unfoldable pub on_write_content : Session S → Session S
  unfolding do_read_header
  on_write_content s =
      let s1 = log "SERVER | write response content OK" "" s in
      let s2 = record s1 {
        read_buffer = clear s1.read_buffer;
        write_buffer = clear s1.write_buffer;
      } in
      do_read_header (record s2 { read_buffer = prepare_header_buffer_read s2.read_buffer })

module _ (p : Platform) where
  open p use {Socket, indeterminate}

  unfoldable pub on_read_header : Session Socket → Result (Session Socket)
  unfolding do_read_content
  on_read_header s = do
    let s1 = log "SERVER | read request header OK" "" s
    buffer ← prepare_content_buffer_read indeterminate s1.read_buffer
    ok (do_read_content (record s1 { read_buffer = buffer }))

  unfoldable pub on_write_header : Session Socket → Session Socket
  unfolding do_write_content
  on_write_header s =
      let s1 = log "SERVER | write response header OK" "" s in
      do_write_content
        (record s1 { write_buffer = prepare_content_buffer_write indeterminate s1.write_buffer })

  -- The handler of the null write.
  unfoldable pub null_written : Session Socket → Session Socket
  unfolding do_close_socket on_close_socket
  null_written s =
      do_close_socket p on_close_socket
        (log "SERVER | shutting down secure (SSL/TLS) protocol on stream OK" "" s)

-- The request handler writes the response into the write buffer.
unfoldable pub on_read_content : {S : Type 0} → Handlers → Session S → Session S
unfolding do_write_header
on_read_content h s =
    let s1 = log "SERVER | read request content OK" "" s in
    let response = h.handle_request s1.read_buffer s1.write_buffer in
    do_write_header (record s1 { write_buffer = prepare_header_buffer_write response })
