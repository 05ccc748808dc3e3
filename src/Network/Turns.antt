-- ===== src/Network/Turns.antt =====
-- Whose turn it is while no operation has failed: always one end can go on, or all is concluded.
use micro_tcp.Common.{
  ℕ, ◌+◌, ◌<◌, ◌≤◌, false, List, [], ◌∷◌, ◌++◌, ◌⊎◌, inl, inr, append-nil, ◌≡◌, refl, sym, ap, ◌∙◌,
  length, arith, ltb, Bool-cases,
}
use micro_tcp.Platform.{Platform}
use micro_tcp.World.{World}
use micro_tcp.Message.{default_message}
use micro_tcp.Handlers.{Handlers}
use micro_tcp.Session.{
  server, client, Operation, async_handshake, async_read_header, async_read_content,
  async_write_header, async_write_content, async_shutdown, async_write_null, async_wait,
}
use micro_tcp.Session.Invariant.{AllowsOne}
use micro_tcp.Network.Specification.{chunks, framings, contents}
use micro_tcp.Network.Ends.{Holds-History}
use micro_tcp.Network.History.{History}
use micro_tcp.Network.Handing.{promised}
use micro_tcp.Network.Counts.{Reach-Counts}
use micro_tcp.Network.Delivery.{small}
use micro_tcp.Network.Progress.{
  IsIntact, AreSmall, HasConcluded, Onward, Onward-after, client_goes, server_goes, length-contents,
}
use micro_tcp.Network.Phases.{open_exchanges}
use micro_tcp.Network.Reading.{
  CanComplete, handshake_completes, write_header_completes, write_content_completes, header_here,
  content_here,
}
use micro_tcp.Network.{Stream, whole, Network, network, arrives_up, arrives_down, Reach, here, then}
use micro_tcp.Network.Concluding.{replied, small_replies, concluded, length-replies}

lt_or_le : (m n : ℕ) → (m < n) ⊎ (n ≤ m)
lt_or_le m n = elim (Bool-cases (ltb m n)) [
  | inl e ↦ inl (ground arith)
  | inr e ↦ inr (ground arith)
]

module _ (p : Platform) (h : Handlers) (fine : p.ErrorCode) (succeeds : p.failed fine ≡ false)
    (a b : p.Socket) (w v : World) where
  open p use {Socket, indeterminate}

  -- A completion brings the two ends onward, or all is concluded.
  abbrev pub Turn : Network p → Type 0
  Turn n = HasConcluded h n ⊎ Onward p h fine succeeds a b w v n

  -- An end writes: what it has begun to write arrives, and the write completes.
  client_writes :
      (n : Network p)
      → Reach p h (network p a b w v) n
      → IsIntact n
      → ((o : Stream) → o.unsent ≡ [] → CanComplete p h fine succeeds client n.client_end n.down o)
      → Turn n
  client_writes n path intact c =
      let there = record n.up { arrived = n.up.arrived ++ n.up.unsent; unsent = [] } in
      let st = arrives_up n.up.unsent [] (sym (append-nil n.up.unsent)) in
      let m = record n { up = there } in
      inr (
        Onward-after p h fine succeeds a b w v n m (then here st) refl refl
          (client_goes p h fine succeeds a b w v m (then path st) intact (c there refl)))

  server_writes :
      (n : Network p)
      → Reach p h (network p a b w v) n
      → IsIntact n
      → AreSmall h n.requests
      → ((o : Stream) → o.unsent ≡ [] → CanComplete p h fine succeeds server n.server_end n.up o)
      → Turn n
  server_writes n path intact small c =
      let there = record n.down { arrived = n.down.arrived ++ n.down.unsent; unsent = [] } in
      let st = arrives_down n.down.unsent [] (sym (append-nil n.down.unsent)) in
      let m = record n { down = there } in
      inr (
        Onward-after p h fine succeeds a b w v n m (then here st) refl refl
          (server_goes p h fine succeeds a b w v m (then path st) intact small (c there refl)))

  -- The client has written a request and reads: it can do so once all are answered.
  abbrev Awaits : Network p → Type 0
  Awaits n =
      n.down.unsent ≡ []
      → whole n.down ≡ chunks (framings (replied p h n))
      → length n.received < length (replied p h n)
      → CanComplete p h fine succeeds client n.client_end n.down n.up

  server_turn :
      (n : Network p)
      → Reach p h (network p a b w v) n
      → IsIntact n
      → AreSmall h n.requests
      → n.up.unsent ≡ []
      → whole n.up ≡ chunks (framings (contents n.requests))
      → length n.requests ≡ length n.received + 1
      → Awaits n
      → (ops : List Operation) → n.server_end.pending ≡ ops
      → AllowsOne p server n.server_end.read_buffer n.server_end.write_buffer ops
      → History server n.server_end.read_buffer n.server_end.write_buffer n.up.consumed n.down
          n.handled
          (promised h server n.requests n.handled)
          ops
      → Turn n
  server_turn n path intact lt sent all_sent count k [] e fits (read, out, none, idle) = absurd idle
  server_turn n path intact lt sent all_sent count k (async_handshake type ∷ []) e fits x = inr (
      server_goes p h fine succeeds a b w v n path intact lt
        (handshake_completes p h fine succeeds server n.server_end type n.up n.down e))
  server_turn n path intact lt sent all_sent count k (async_write_header bytes ∷ []) e fits x =
      server_writes n path intact lt
        λ o none. write_header_completes p h fine succeeds server n.server_end bytes n.up o e none
  server_turn n path intact lt sent all_sent count k (async_write_content bytes ∷ []) e fits x =
      server_writes n path intact lt
        λ o none. write_content_completes p h fine succeeds server n.server_end bytes n.up o e none
  server_turn n path intact lt sent all_sent count k (async_read_content size ∷ []) e
        (head, _, announced) (read, out, none, fit) =
      inr (
        server_goes p h fine succeeds a b w v n path intact lt (
          content_here p h fine succeeds server n.server_end size n.up n.down n.handled
            (contents n.requests) e head announced (Reach-Counts p h a b w v path).0.1.1
            (small n.requests lt.0) read sent all_sent))
  server_turn n path intact lt sent all_sent count k (async_read_header size ∷ []) e sizes
        (read, out, none, fit) =
      elim (lt_or_le (length n.handled) (length n.requests)) [
        | inl more ↦ inr (
            server_goes p h fine succeeds a b w v n path intact lt (
              header_here p h fine succeeds server n.server_end size n.up n.down n.handled
                (contents n.requests) e sizes (Reach-Counts p h a b w v path).0.1.1
                (small n.requests lt.0) (omega (arith, length-contents n.requests)) read sent
                all_sent))
        | inr all ↦ inr (
            client_goes p h fine succeeds a b w v n path intact
              (k none out (omega (arith, length-replies h default_message n.handled))))
      ]
  server_turn n path intact lt sent all_sent count k (async_shutdown ∷ []) e fits x = absurd x
  server_turn n path intact lt sent all_sent count k (async_write_null ∷ []) e fits x = absurd x
  server_turn n path intact lt sent all_sent count k (async_wait ∷ []) e fits x = absurd x
  server_turn n path intact lt sent all_sent count k (op ∷ op' ∷ ops) e fits x = absurd x

  -- The client reads: its request has been sent, and it is the server's turn.
  reading :
      (n : Network p)
      → Reach p h (network p a b w v) n
      → IsIntact n
      → AreSmall h n.requests
      → n.up.unsent ≡ []
      → whole n.up ≡ chunks (framings (contents n.requests))
      → length n.requests ≡ length n.received + 1
      → Awaits n
      → Turn n
  reading n path intact lt sent all_sent count k =
      let (fits, known) =
        Holds-History p h server n.server_end n.up.consumed n.down n.requests n.handled intact.1
          (Reach-Counts p h a b w v path).0.1 in
      server_turn n path intact lt sent all_sent count k n.server_end.pending refl fits known

  client_turn :
      (n : Network p)
      → Reach p h (network p a b w v) n
      → IsIntact n
      → AreSmall h n.requests
      → length n.requests ≡ length n.received + open_exchanges client n.client_end.pending
      → (ops : List Operation) → n.client_end.pending ≡ ops
      → AllowsOne p client n.client_end.read_buffer n.client_end.write_buffer ops
      → History client n.client_end.read_buffer n.client_end.write_buffer n.down.consumed n.up
          n.received
          (promised h client n.requests n.received)
          ops
      → Turn n
  client_turn n path intact lt count [] e fits x = inl (
      concluded p h a b w v path e
        (count ∙ ap (λ ops. length n.received + open_exchanges client ops) e) lt)
  client_turn n path intact lt count (async_handshake type ∷ []) e fits x = inr (
      client_goes p h fine succeeds a b w v n path intact
        (handshake_completes p h fine succeeds client n.client_end type n.down n.up e))
  client_turn n path intact lt count (async_write_header bytes ∷ []) e fits x =
      client_writes n path intact
        λ o none. write_header_completes p h fine succeeds client n.client_end bytes n.down o e none
  client_turn n path intact lt count (async_write_content bytes ∷ []) e fits x =
      client_writes n path intact λ o none.
        write_content_completes p h fine succeeds client n.client_end bytes n.down o e none
  client_turn n path intact lt count (async_read_header size ∷ []) e sizes (read, out, none, fit) =
      reading n path intact lt none out
        (count ∙ ap (λ ops. length n.received + open_exchanges client ops) e)
        λ none' out' more.
          header_here p h fine succeeds client n.client_end size n.down n.up n.received
            (replied p h n) e sizes (Reach-Counts p h a b w v path).0.0.1
            (small_replies p h a b w v path lt) more read none' out'
  client_turn n path intact lt count (async_read_content size ∷ []) e (head, _, announced)
        (read, out, none, fit) =
      reading n path intact lt none out
        (count ∙ ap (λ ops. length n.received + open_exchanges client ops) e)
        λ none' out' more.
          content_here p h fine succeeds client n.client_end size n.down n.up n.received
            (replied p h n) e head announced (Reach-Counts p h a b w v path).0.0.1
            (small_replies p h a b w v path lt) read none' out'
  client_turn n path intact lt count (async_shutdown ∷ []) e fits x = absurd x
  client_turn n path intact lt count (async_write_null ∷ []) e fits x = absurd x
  client_turn n path intact lt count (async_wait ∷ []) e fits x = absurd x
  client_turn n path intact lt count (op ∷ op' ∷ ops) e fits x = absurd x

  pub turn :
      (n : Network p)
      → Reach p h (network p a b w v) n
      → IsIntact n
      → AreSmall h n.requests
      → Turn n
  turn n path intact lt =
      let (both, counts) = Reach-Counts p h a b w v path in
      let (fits, known) =
        Holds-History p h client n.client_end n.down.consumed n.up n.requests n.received intact.0
          both.0 in
      client_turn n path intact lt (counts intact.0) n.client_end.pending refl fits known
