-- ===== src/Session/Transfer.antt =====
-- The two halves of a round: how a message is read from the stream, and how one is written.
use micro_tcp.Common.{
  ℕ, zero, ◌^◌, ◌<◌, false, [], ◌∷◌, ◌++◌, append-nil, append_assoc, ◌≡◌, refl, sym, ap, ◌∙◌, ok,
  Bytes, length, replicate, take_all, drop_all, length-replicate, leb-true, arith,
}
use micro_tcp.Platform.{Platform}
use micro_tcp.World.{World}
use micro_tcp.Message.{Message, max_size, default_header_length, prepare_content_buffer_read}
use micro_tcp.Message.Header.{header_of, length-header_of, content_length-header_of}
use micro_tcp.Message.Content.{
  IsFramed, prepare_content_buffer_read_lem, prepare_content_buffer_write-IsFramed,
}
use micro_tcp.Handlers.{Handlers}
use micro_tcp.Session.{
  Role, server, client, async_read_header, async_read_content, async_write_header,
  async_write_content, Session, log,
}
use micro_tcp.Session.ServerSession
use micro_tcp.Session.ClientSession
use micro_tcp.Session.Completion.{
  fill, next, run, complete, read_header_done, read_content_done, write_header_done,
  write_content_done, on_read_content, on_write_content,
}

-- The message that a peer sends for a content, and its bytes on the stream.
abbrev pub framed : Bytes → Message
framed content = record { header_buffer = header_of (length content); content_buffer = content }

abbrev pub frame : Bytes → Bytes
frame content = header_of (length content) ++ content

pub fill_whole : (bytes buffer : Bytes) → length bytes ≡ length buffer → fill bytes buffer ≡ bytes
fill_whole bytes buffer h =
    rw (take_all bytes (length buffer) (omega arith), drop_all buffer (length bytes) (omega arith))
      (append-nil bytes)

pub announced :
    (old n : ℕ) (content : Bytes)
    → n < 10 ^ 10
    → prepare_content_buffer_read old
        (record { header_buffer = header_of n; content_buffer = content })
      ≡ ok (record { header_buffer = header_of n; content_buffer = replicate n 0 })
announced old n content h =
    prepare_content_buffer_read_lem old _
    ∙ rw
        (content_length-header_of old n
          (record { header_buffer = header_of n; content_buffer = content }) refl h)
        (rw (leb-true n max_size (omega arith)) refl)

-- The output after a header was read, or written.
module _ {S : Type 0} where
  abbrev pub header_world : Role → Session S → World
  header_world server s = (log "SERVER | read request header OK" "" s).world
  header_world client s = (log "CLIENT | read response header OK" "" s).world

  abbrev pub written_world : Role → Session S → World
  written_world server s = (log "SERVER | write response header OK" "" s).world
  written_world client s = (log "CLIENT | write request header OK" "" s).world

module _ (p : Platform) (h : Handlers) (fine : p.ErrorCode) (succeeds : p.failed fine ≡ false) where
  open p use {Socket, indeterminate}

  -- The session between the two reads, and between the two writes.
  abbrev pub header_read : Role → Session Socket → Bytes → Session Socket
  header_read r s content = record s {
    read_buffer = record {
      header_buffer = header_of (length content);
      content_buffer = replicate (length content) 0;
    };
    pending = async_read_content (length content) ∷ [];
    world = header_world r s;
  }

  abbrev header_written : Role → Session Socket → Session Socket
  header_written r s = record s {
    pending = async_write_content s.write_buffer.content_buffer ∷ [];
    world = written_world r s;
  }

  read_header_step :
      (r : Role) (s : Session Socket) (out content : Bytes) (n : ℕ)
      → s.pending ≡ async_read_header n ∷ []
      → length s.read_buffer.header_buffer ≡ default_header_length
      → length content < 10 ^ 10
      → next p h r (fine, header_of (length content)) (s, out) ≡ ok (header_read r s content, out)
  unfolding next complete read_header_done ServerSession.on_read_header ClientSession.on_read_header
  read_header_step server s out content n e l lt = rw (
    e,
    succeeds,
    append-nil,
    fill_whole (header_of (length content)) s.read_buffer.header_buffer
        (length-header_of _ lt ∙ sym l),
    announced indeterminate (length content) s.read_buffer.content_buffer lt,
    length-replicate (length content) zero,
  )
  read_header_step client s out content n e l lt = rw (
    e,
    succeeds,
    append-nil,
    fill_whole (header_of (length content)) s.read_buffer.header_buffer
        (length-header_of _ lt ∙ sym l),
    announced indeterminate (length content) s.read_buffer.content_buffer lt,
    length-replicate (length content) zero,
  )

  read_content_step :
      (r : Role) (s : Session Socket) (out content : Bytes) (n : ℕ)
      → s.pending ≡ async_read_content n ∷ []
      → length content ≡ length s.read_buffer.content_buffer
      → next p h r (fine, content) (s, out)
        ≡ ok (
          on_read_content h r (record s {
            read_buffer = record s.read_buffer { content_buffer = content };
            pending = [];
          }),
          out,
        )
  unfolding next complete read_content_done
  read_content_step r s out content n e l =
      rw (e, succeeds, append-nil, fill_whole content s.read_buffer.content_buffer l)

  -- A framed content that the peer sends is handed to the session's class as it was framed.
  pub read_message :
      (r : Role) (s : Session Socket) (out content : Bytes) (n : ℕ)
      → s.pending ≡ async_read_header n ∷ []
      → length s.read_buffer.header_buffer ≡ default_header_length
      → length content < 10 ^ 10
      → run p h r ((fine, header_of (length content)) ∷ (fine, content) ∷ []) (s, out)
        ≡ ok (
          on_read_content h r
              (record s { read_buffer = framed content; pending = []; world = header_world r s }),
          out,
        )
  unfolding run
  read_message r s out content n e l lt = rw (read_header_step r s out content n e l lt) (
      rw (
        read_content_step r (header_read r s content) out content (length content) refl
          (sym (length-replicate (length content) 0))))

  write_header_step :
      (r : Role) (s : Session Socket) (out b : Bytes)
      → s.pending ≡ async_write_header b ∷ []
      → IsFramed s.write_buffer
      → next p h r (fine, []) (s, out) ≡ ok (header_written r s, out ++ b)
  unfolding next complete write_header_done ServerSession.on_write_header
      ClientSession.on_write_header
  write_header_step server s out b e f =
      rw (e, succeeds, prepare_content_buffer_write-IsFramed indeterminate s.write_buffer f)
  write_header_step client s out b e f =
      rw (e, succeeds, prepare_content_buffer_write-IsFramed indeterminate s.write_buffer f)

  write_content_step :
      (r : Role) (s : Session Socket) (out b : Bytes)
      → s.pending ≡ async_write_content b ∷ []
      → next p h r (fine, []) (s, out)
        ≡ ok (on_write_content h r (record s { pending = [] }), out ++ b)
  unfolding next complete write_content_done
  write_content_step r s out b e = rw (e, succeeds)

  -- A framed message is written as its header and its content.
  pub write_message :
      (r : Role) (s : Session Socket) (out : Bytes)
      → s.pending ≡ async_write_header s.write_buffer.header_buffer ∷ []
      → IsFramed s.write_buffer
      → run p h r ((fine, []) ∷ (fine, []) ∷ []) (s, out)
        ≡ ok (
          on_write_content h r (record s { pending = []; world = written_world r s }),
          out ++ frame s.write_buffer.content_buffer,
        )
  unfolding run
  write_message r s out e f =
      let head = s.write_buffer.header_buffer in
      let content = s.write_buffer.content_buffer in
      let last = on_write_content h r (record s { pending = []; world = written_world r s }) in
      rw
        (
          write_header_step r s out head e f,
          write_content_step r (header_written r s) (out ++ head) content refl,
          append_assoc out head content,
        )
        (ap (λ b. ok (last, out ++ (b ++ content))) f)
