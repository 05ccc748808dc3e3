-- ===== src/Session/Throwing.antt =====
-- Which completions of a session end in an exception.
use micro_tcp.Common.{
  ℕ, ◌<◌, ◌≡◌, refl, false, throw, Exception, length_error, Bytes, arith, Bool-cases, inl, inr,
}
use micro_tcp.Platform.{Platform}
use micro_tcp.Handlers.{Handlers}
use micro_tcp.Message.{Message, max_size, get_header_buffer_content_length}
use micro_tcp.Message.Content.{prepare_content_buffer_read_lem}
use micro_tcp.Session.{
  Role, server, client, Operation, async_handshake, async_read_header, async_read_content,
  async_write_header, async_write_content, async_shutdown, async_write_null, async_wait, Session,
}
use micro_tcp.Session.ServerSession
use micro_tcp.Session.ClientSession
use micro_tcp.Session.Completion.{complete, read_header_done, on_read_header, fill}

module _ (p : Platform) where
  open p use {Socket, indeterminate}

  -- A message announces more than a vector can hold.
  abbrev pub IsTooLong : Message → Type 0
  IsTooLong m = max_size < get_header_buffer_content_length indeterminate m

  on_read_header-throws :
      (r : Role) (s : Session Socket) (x : Exception)
      → on_read_header p r s ≡ throw x
      → (x ≡ length_error) × IsTooLong s.read_buffer
  unfolding ServerSession.on_read_header ClientSession.on_read_header
  on_read_header-throws server s x e =
      ground (arith, prepare_content_buffer_read_lem indeterminate s.read_buffer)
  on_read_header-throws client s x e =
      ground (arith, prepare_content_buffer_read_lem indeterminate s.read_buffer)

-- A completion of a session, with any error code and any bytes, in any state, ends in an exception only
-- if it is the read of a header without an error, and the header that was read announces more bytes
-- than a vector can hold; the exception is then `std::length_error`.
pub throws_only :
    (p : Platform) (h : Handlers) (r : Role) (op : Operation) (ec : p.ErrorCode) (bytes : Bytes)
    (s : Session p.Socket) (x : Exception)
    → complete p h r op ec bytes s ≡ throw x
    → (x ≡ length_error)
      × (p.failed ec ≡ false)
      × ((n : ℕ) × (op ≡ async_read_header n))
      × IsTooLong p
          (record s.read_buffer { header_buffer = fill bytes s.read_buffer.header_buffer })
unfolding complete read_header_done
throws_only p h r (async_read_header n) ec bytes s x e = elim (Bool-cases (p.failed ec)) [
  | inl bad ↦ absurd (ground arith)
  | inr fine ↦ let (l, t) = on_read_header-throws p r _ x (rw fine at e) in (l, fine, (n, refl), t)
]
throws_only p h r (async_handshake type) ec bytes s x e = cc
throws_only p h r (async_read_content n) ec bytes s x e = cc
throws_only p h r (async_write_header b) ec bytes s x e = cc
throws_only p h r (async_write_content b) ec bytes s x e = cc
throws_only p h r async_shutdown ec bytes s x e = cc
throws_only p h r async_write_null ec bytes s x e = cc
throws_only p h r async_wait ec bytes s x e = cc
