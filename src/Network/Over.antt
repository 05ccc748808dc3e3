-- ===== src/Network/Over.antt =====
-- Behind a failure, and behind the operations that close a connection, a session begins no read or write of a
-- message.
use mathlib.Core.List.{IsPrefix}
use micro_tcp.Common.{
  Bool, true, List, [], ◌++◌, append-nil, append_assoc, Result, throw, ok, ◌≡◌, sym, ap, ◌∙◌, Bytes,
  arith,
}
use micro_tcp.Platform.{Platform}
use micro_tcp.Message.{Message}
use micro_tcp.Handlers.{Handlers}
use micro_tcp.Session.{
  Role, server, client, Operation, async_handshake, async_read_header, async_read_content,
  async_write_header, async_write_content, async_shutdown, async_write_null, async_wait, Session,
  stop, do_close_socket,
}
use micro_tcp.Session.ServerSession
use micro_tcp.Session.ClientSession
use micro_tcp.Session.Completion.{
  complete, handshake_done, read_header_done, read_content_done, write_header_done,
  write_content_done, shutdown_done, wait_done,
}
use micro_tcp.Network.Specification.{chunks}
use micro_tcp.Network.History.{HistoryOf, whole-behind}
use micro_tcp.Network.Carried.{Closes, carried, carried-written}
use micro_tcp.Network.{Stream, whole, behind, written, Writes, Moves}

pub prefix_trans : {A : Type 0} (x y z : List A) → IsPrefix x y → IsPrefix y z → IsPrefix x z
prefix_trans x y z (t, e) (u, f) = (t ++ u, sym (append_assoc x t u) ∙ ap (λ a. a ++ u) e ∙ f)

pub prefix_same : {A : Type 0} {x y : List A} → x ≡ y → IsPrefix x y
prefix_same {x = x} e = ([], append-nil x ∙ e)

read_same : {i i' : Stream} → i' ≡ i → IsPrefix i.consumed i'.consumed
read_same e = prefix_same (sym (ap (λ x. x.consumed) e))

Writes-IsPrefix : (bad : Bool) (o o' : Stream) → Writes bad o o' → IsPrefix (whole o') (whole o)
Writes-IsPrefix bad o o' (ec, ea, eu, size) = (o.unsent, rw (ec, ea, eu, append-nil, append_assoc))

-- A completion reads on, and of what was to be sent it may lose the end.
Moves-IsPrefix :
    (bad : Bool) (op : Operation) (bytes : Bytes) (i o i' o' : Stream)
    → Moves bad op bytes i o i' o'
    → IsPrefix i.consumed i'.consumed × IsPrefix (whole o') (whole o)
Moves-IsPrefix bad (async_read_header n) bytes i o i' o' ((ea, ec, eu, size), eo) =
    ((bytes, sym ec), prefix_same (ap (λ x. whole x) eo))
Moves-IsPrefix bad (async_read_content n) bytes i o i' o' ((ea, ec, eu, size), eo) =
    ((bytes, sym ec), prefix_same (ap (λ x. whole x) eo))
Moves-IsPrefix bad (async_write_header b) bytes i o i' o' (ei, ew) =
    (read_same ei, Writes-IsPrefix bad o o' ew)
Moves-IsPrefix bad (async_write_content b) bytes i o i' o' (ei, ew) =
    (read_same ei, Writes-IsPrefix bad o o' ew)
Moves-IsPrefix bad (async_handshake type) bytes i o i' o' (ei, eo) =
    (read_same ei, prefix_same (ap (λ x. whole x) eo))
Moves-IsPrefix bad async_shutdown bytes i o i' o' (ei, eo) =
    (read_same ei, prefix_same (ap (λ x. whole x) eo))
Moves-IsPrefix bad async_write_null bytes i o i' o' (ei, eo) =
    (read_same ei, prefix_same (ap (λ x. whole x) eo))
Moves-IsPrefix bad async_wait bytes i o i' o' (ei, eo) =
    (read_same ei, prefix_same (ap (λ x. whole x) eo))

pub Moves-same :
    (bad : Bool) (op : Operation) (bytes : Bytes) (i o i' o' : Stream)
    → Closes op
    → Moves bad op bytes i o i' o'
    → (i' ≡ i) × (o' ≡ o)
Moves-same bad async_shutdown bytes i o i' o' x m = m
Moves-same bad async_write_null bytes i o i' o' x m = m
Moves-same bad async_wait bytes i o i' o' x m = m
Moves-same bad (async_handshake type) bytes i o i' o' x m = absurd x
Moves-same bad (async_read_header n) bytes i o i' o' x m = absurd x
Moves-same bad (async_read_content n) bytes i o i' o' x m = absurd x
Moves-same bad (async_write_header b) bytes i o i' o' x m = absurd x
Moves-same bad (async_write_content b) bytes i o i' o' x m = absurd x

-- What was handed over is a part of what was read, and what was written of what is to be sent.
pub HistoryOf-IsPrefix :
    (r : Role) (read write : Message) (inn : Bytes) (o : Stream) (given : List Message)
    (expected : Bytes) (op : Operation)
    → HistoryOf r read write inn o given expected op
    → IsPrefix (chunks given) inn × IsPrefix (whole o) expected
HistoryOf-IsPrefix r read write inn o given expected (async_handshake type) (inn', out, none, fit) =
    (prefix_same (sym inn'), prefix_same out)
HistoryOf-IsPrefix r read write inn o given expected (async_read_header n) (inn', out, none, fit) =
    (prefix_same (sym inn'), prefix_same out)
HistoryOf-IsPrefix r read write inn o given expected (async_read_content n) (inn', out, none, fit) =
    ((read.header_buffer, sym inn'), prefix_same out)
HistoryOf-IsPrefix r read write inn o given expected (async_write_header b) (inn', out, a) =
    (prefix_same (sym inn'), (write.content_buffer, out))
HistoryOf-IsPrefix r read write inn o given expected (async_write_content b) (inn', out, a) =
    (prefix_same (sym inn'), prefix_same out)
HistoryOf-IsPrefix r read write inn o given expected async_shutdown x = absurd x
HistoryOf-IsPrefix r read write inn o given expected async_write_null x = absurd x
HistoryOf-IsPrefix r read write inn o given expected async_wait x = absurd x

-- A completion behind which no operation of an exchange is begun.
pub Moves-over :
    (bad : Bool) (op : Operation) (bytes : Bytes) (i o i' o' : Stream) (given : List Message)
    (expected : Bytes) (pending : List Operation)
    → Moves bad op bytes i o i' o'
    → IsPrefix (chunks given) i.consumed
    → IsPrefix (whole o) expected
    → carried pending ≡ []
    → IsPrefix (chunks given) i'.consumed × IsPrefix (whole (behind o' (written pending))) expected
Moves-over bad op bytes i o i' o' given expected pending m x y over =
    let (reads, writes) = Moves-IsPrefix bad op bytes i o i' o' m in
    let same =
      whole-behind o' (written pending)
      ∙ ap (λ b. whole o' ++ b) (carried-written pending over)
      ∙ append-nil (whole o') in
    (
      prefix_trans (chunks given) i.consumed i'.consumed x reads,
      prefix_trans (whole (behind o' (written pending))) (whole o) expected
          (prefix_trans (whole (behind o' (written pending))) (whole o') (whole o)
            (prefix_same same) writes)
          y,
    )

module _ (p : Platform) (h : Handlers) where
  open p use {Socket, ErrorCode}

  abbrev pub EndsOver : Result (Session Socket) → Type 0
  EndsOver (ok t) = carried t.pending ≡ []
  EndsOver (throw e) = Unit

  -- Behind a failure nothing but the shutdown is pending.
  pub failed-over :
      (r : Role) (op : Operation) (ec : ErrorCode) (bytes : Bytes) (s : Session Socket)
      → p.failed ec ≡ true
      → s.pending ≡ []
      → EndsOver (complete p h r op ec bytes s)
  unfolding complete handshake_done read_header_done read_content_done write_header_done
      write_content_done shutdown_done wait_done ServerSession.null_written stop do_close_socket
      ServerSession.on_close_socket ClientSession.on_close_socket
      ServerSession.on_shutdown_secure_stream ClientSession.on_shutdown_secure_stream
  failed-over r (async_handshake type) ec bytes s bad idle = ground arith
  failed-over r (async_read_header n) ec bytes s bad idle = ground arith
  failed-over r (async_read_content n) ec bytes s bad idle = ground arith
  failed-over r (async_write_header b) ec bytes s bad idle = ground arith
  failed-over r (async_write_content b) ec bytes s bad idle = ground arith
  failed-over server async_shutdown ec bytes s bad idle = ground arith
  failed-over client async_shutdown ec bytes s bad idle = ground arith
  failed-over r async_write_null ec bytes s bad idle = ground arith
  failed-over r async_wait ec bytes s bad idle = ground arith

  -- The same behind an operation that closes the connection, which leaves the buffers as they are.
  abbrev pub LeavesOver : Session Socket → Result (Session Socket) → Type 0
  LeavesOver s (ok t) =
      (carried t.pending ≡ []) × (t.read_buffer ≡ s.read_buffer) × (t.write_buffer ≡ s.write_buffer)
  LeavesOver s (throw e) = Unit

  pub Closes-over :
      (r : Role) (op : Operation) (ec : ErrorCode) (bytes : Bytes) (s : Session Socket)
      → Closes op
      → s.pending ≡ []
      → LeavesOver s (complete p h r op ec bytes s)
  unfolding complete shutdown_done wait_done stop ServerSession.null_written do_close_socket
      ServerSession.on_close_socket ClientSession.on_close_socket
      ServerSession.on_shutdown_secure_stream ClientSession.on_shutdown_secure_stream
  Closes-over server async_shutdown ec bytes s x idle = ground arith
  Closes-over client async_shutdown ec bytes s x idle = ground arith
  Closes-over r async_write_null ec bytes s x idle = ground arith
  Closes-over r async_wait ec bytes s x idle = ground arith
  Closes-over r (async_handshake type) ec bytes s x idle = absurd x
  Closes-over r (async_read_header n) ec bytes s x idle = absurd x
  Closes-over r (async_read_content n) ec bytes s x idle = absurd x
  Closes-over r (async_write_header b) ec bytes s x idle = absurd x
  Closes-over r (async_write_content b) ec bytes s x idle = absurd x
