-- ===== src/Network/Handing.antt =====
-- The completion that hands a message to the handler: the server's request and the client's response.
use micro_tcp.Common.{
  ℕ, false, List, [], ◌∷◌, ◌++◌, append-nil, append_assoc, ◌≡◌, sym, ap, ◌∙◌, Bytes, length,
}
use micro_tcp.Platform.{Platform}
use micro_tcp.World.{World}
use micro_tcp.Message.{Message, default_message, prepare_header_buffer_write}
use micro_tcp.Message.Header.{header_of}
use micro_tcp.Message.Header.{prepare_header_buffer_write-header}
use micro_tcp.Handlers.{Handlers}
use micro_tcp.Session.{Role, server, client, async_read_content, Session}
use micro_tcp.Session.ServerSession
use micro_tcp.Session.ClientSession
use micro_tcp.Session.Completion.{complete, fill, read_content_done}
use micro_tcp.Session.Transfer.{framed, frame}
use micro_tcp.Network.Specification.{
  chunks, framings, contents, replies, after, chunks-snoc, framings-snoc, replies-snoc, after-snoc,
}
use micro_tcp.Network.History.{Gives, HistoryOf, still, read_whole, whole-behind}
use micro_tcp.Network.{Stream, whole, behind, Reads, Moves}

-- What an end is to send: the frames of the requests, and of the replies to what was handed over.
abbrev pub promised : Handlers → Role → List Message → List Message → Bytes
promised h server requests given = chunks (framings (replies h default_message given))
promised h client requests given = chunks (framings (contents requests))

-- Once the header of a message is begun to be written, and its content is to follow.
pub framed_out :
    (o : Stream) (m : Message)
    → let x = prepare_header_buffer_write m in
      whole (behind o (x.header_buffer ++ [])) ++ x.content_buffer
      ≡ whole o ++ frame m.content_buffer
framed_out o m =
    let hd = header_of (length m.content_buffer) in
    ap (λ x. whole (behind o (x.header_buffer ++ [])) ++ x.content_buffer)
      (prepare_header_buffer_write-header m)
    ∙ ap (λ b. b ++ m.content_buffer) (whole-behind o (hd ++ []))
    ∙ ap (λ b. (whole o ++ b) ++ m.content_buffer) (append-nil hd)
    ∙ append_assoc (whole o) hd m.content_buffer

-- One reply more is promised for one request more.
promised-snoc :
    (h : Handlers) (requests given : List Message) (q : Message)
    → promised h server requests (given ++ q ∷ [])
      ≡ promised h server requests given
        ++ frame (h.handle_request q (after default_message given)).content_buffer
promised-snoc h requests given q =
    let c = (h.handle_request q (after default_message given)).content_buffer in
    ap (λ cs. chunks (framings cs)) (replies-snoc h default_message given q)
    ∙ ap chunks (framings-snoc (replies h default_message given) c)
    ∙ chunks-snoc (framings (replies h default_message given)) (framed c)

module _ (p : Platform) (h : Handlers) (ec : p.ErrorCode) (fine : p.failed ec ≡ false)
    (s : Session p.Socket) (w : World) (i o i' o' : Stream) (requests given : List Message) where
  open p use {Socket}

  abbrev pub read_message : Bytes → Message
  read_message bytes = record s.read_buffer {
    content_buffer = fill bytes s.read_buffer.content_buffer;
  }

  -- The header and the content of the message have been read.
  message_read :
      (n : ℕ) (bytes : Bytes)
      → length s.read_buffer.content_buffer ≡ n
      → i.consumed ≡ chunks given ++ s.read_buffer.header_buffer
      → Reads false n bytes i i'
      → i'.consumed ≡ chunks (given ++ read_message bytes ∷ [])
  message_read n bytes l inn mi =
      read_whole p h ec fine s w i o i' o' given [] n bytes s.read_buffer.content_buffer l mi
      ∙ ap (λ b. b ++ fill bytes s.read_buffer.content_buffer) inn
      ∙ append_assoc (chunks given) s.read_buffer.header_buffer _
      ∙ sym (chunks-snoc given (read_message bytes))

  -- The header of the response is begun to be written.
  response_out :
      (q write : Message)
      → write ≡ after default_message given
      → o' ≡ o
      → whole o ≡ promised h server requests given
      → let x = prepare_header_buffer_write (h.handle_request q write) in
        whole (behind o' (x.header_buffer ++ [])) ++ x.content_buffer
        ≡ promised h server requests (given ++ q ∷ [])
  response_out q write fit eo out =
      let frame_for = λ (b : Message). frame (h.handle_request q b).content_buffer in
      framed_out o' (h.handle_request q write)
      ∙ ap (λ b. b ++ frame_for write) (ap (λ x. whole x) eo ∙ out)
      ∙ ap (λ b. promised h server requests given ++ frame_for b) fit
      ∙ sym (promised-snoc h requests given q)

  idle :
      o' ≡ o
      → whole o ≡ promised h client requests given
      → o.unsent ≡ []
      → (whole (behind o' []) ≡ promised h client requests given) × (o'.unsent ++ [] ≡ [])
  idle eo out none =
      still p h ec fine s w i o i' o' given (promised h client requests given) eo out none

  pub read_content-Gives :
      (r : Role) (n : ℕ) (bytes : Bytes)
      → length s.read_buffer.content_buffer ≡ n
      → HistoryOf r s.read_buffer s.write_buffer i.consumed o given
          (promised h r requests given)
          (async_read_content n)
      → Moves false (async_read_content n) bytes i o i' o'
      → Gives i' o' r
          (given ++ read_message bytes ∷ [])
          (promised h r requests (given ++ read_message bytes ∷ []))
          (complete p h r (async_read_content n) ec bytes (record s { pending = []; world = w }))
  unfolding complete read_content_done ServerSession.on_read_content ClientSession.on_read_content
  read_content-Gives server n bytes l (inn, out, none, fit) (mi, eo) = rw fine (
    message_read n bytes l inn mi,
    response_out (read_message bytes) s.write_buffer fit eo out,
    after-snoc default_message given (read_message bytes),
  )
  read_content-Gives client n bytes l (inn, out, none, fit) (mi, eo) =
      rw fine (message_read n bytes l inn mi, (idle eo out none).0, (idle eo out none).1, tt)
