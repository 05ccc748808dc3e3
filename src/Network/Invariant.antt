-- ===== src/Network/Invariant.antt =====
-- What holds at both ends of a connection, whatever the network and the operating systems do.
use mathlib.Core.Path.{subst}
use micro_tcp.Common.{
  ℕ, append-nil, Bool, true, false, Bool-cases, inl, inr, arith, refl, List, [], ◌∷◌, ◌++◌,
  append_assoc, ◌≡◌, sym, ap, ◌∙◌, Bytes, length,
}
use micro_tcp.Platform.{Platform}
use micro_tcp.World.{World}
use micro_tcp.Message.{Message}
use micro_tcp.Message.Content.{prepare_header_buffer_write-IsFramed}
use micro_tcp.Handlers.{Handlers}
use micro_tcp.Session.{
  stop, Role, server, client, Operation, async_handshake, async_read_header, async_read_content,
  async_write_header, async_write_content, async_shutdown, async_write_null, async_wait, Session,
  session,
}
use micro_tcp.Session.ServerSession
use micro_tcp.Session.ClientSession
use micro_tcp.Session.Transfer.{framed, frame}
use micro_tcp.Network.Specification.{
  chunks, framings, contents, chunks-snoc, framings-snoc, contents-snoc,
}
use micro_tcp.Network.Handing.{promised, framed_out}
use micro_tcp.Network.Account.{
  Travels, Account, Account-Travels, shown, History-carried, Account-History,
}
use micro_tcp.Network.Carried.{carried, carried-append}
use micro_tcp.Network.Ends.{Holds}
use micro_tcp.Network.Completing.{Completes-Holds, AllowsOne-carried}
use micro_tcp.Network.{
  Stream, whole, behind, begun, Reads, Moves, Network, network, Step, arrives_up, arrives_down,
  client_completes, server_completes, sends, stops, Reach, here, then,
}

-- One request more is promised.
request-snoc :
    (requests : List Message) (m : Message)
    → chunks (framings (contents (requests ++ m ∷ [])))
      ≡ chunks (framings (contents requests)) ++ frame m.content_buffer
request-snoc requests m =
    ap (λ cs. chunks (framings cs)) (contents-snoc requests m)
    ∙ ap chunks (framings-snoc (contents requests) m.content_buffer)
    ∙ chunks-snoc (framings (contents requests)) (framed m.content_buffer)

-- What a completion does to the streams, as the peer sees it.
Reads-Travels :
    (bad : Bool) (n : ℕ) (bytes : Bytes) (i i' : Stream) → Reads bad n bytes i i' → Travels i i'
Reads-Travels bad n bytes i i' (ea, ec, eu, size) =
    (rw (ec, eu, ea, append_assoc, append_assoc), λ e. eu ∙ e)

stays : {i i' : Stream} → i' ≡ i → Travels i i'
stays e = (ap (λ x. whole x) e, λ none. ap (λ x. x.unsent) e ∙ none)

nil_back : (a b : Bytes) → a ++ b ≡ [] → b ≡ []
nil_back [] b e = e
nil_back (x ∷ a) b e = absurd (omega (arith, ap length e))

Moves-peer :
    (bad : Bool) (op : Operation) (bytes : Bytes) (i o i' o' : Stream)
    → Moves bad op bytes i o i' o'
    → Travels i i' × (o'.consumed ≡ o.consumed)
Moves-peer bad (async_read_header n) bytes i o i' o' (mi, eo) =
    (Reads-Travels bad n bytes i i' mi, ap (λ x. x.consumed) eo)
Moves-peer bad (async_read_content n) bytes i o i' o' (mi, eo) =
    (Reads-Travels bad n bytes i i' mi, ap (λ x. x.consumed) eo)
Moves-peer bad (async_write_header b) bytes i o i' o' (ei, mo) = (stays ei, mo.0)
Moves-peer bad (async_write_content b) bytes i o i' o' (ei, mo) = (stays ei, mo.0)
Moves-peer bad (async_handshake type) bytes i o i' o' (ei, eo) = (stays ei, ap (λ x. x.consumed) eo)
Moves-peer bad async_shutdown bytes i o i' o' (ei, eo) = (stays ei, ap (λ x. x.consumed) eo)
Moves-peer bad async_write_null bytes i o i' o' (ei, eo) = (stays ei, ap (λ x. x.consumed) eo)
Moves-peer bad async_wait bytes i o i' o' (ei, eo) = (stays ei, ap (λ x. x.consumed) eo)

arrived-Travels :
    (o : Stream) (a b : Bytes)
    → o.unsent ≡ a ++ b
    → Travels o (record o { arrived = o.arrived ++ a; unsent = b })
arrived-Travels o a b e = (rw (e, append_assoc), λ none. nil_back a b (sym e ∙ none))

module _ (p : Platform) (h : Handlers) where
  open p use {Socket, ErrorCode, indeterminate}

  -- What holds at both ends.
  abbrev pub Both : Network p → Type 0
  Both n =
      Holds p h client n.client_intact n.client_end n.down.consumed n.up n.requests n.received
      × Holds p h server n.server_intact n.server_end n.up.consumed n.down n.requests n.handled

  Holds-Travels :
      (r : Role) (intact : Bool) (s : Session Socket) (inn inn' : Bytes) (o o' : Stream)
      (requests given : List Message)
      → inn' ≡ inn
      → Travels o o'
      → Holds p h r intact s inn o requests given
      → Holds p h r intact s inn' o' requests given
  Holds-Travels r intact s inn inn' o o' requests given e t (orderly, chunked, account) = (
    orderly,
    chunked,
    Account-Travels intact r s.read_buffer s.write_buffer inn' o o' given _ (shown intact s.pending)
        t
        (subst
          (λ b.
            Account intact r s.read_buffer s.write_buffer b o given (promised h r requests given)
              (shown intact s.pending))
          (sym e) account),
  )

  send-Holds :
      (m : Message) (s : Session Socket) (inn : Bytes) (o : Stream) (requests given : List Message)
      → s.pending ≡ []
      → Holds p h client true s inn o requests given
      → let t = ClientSession.send m s in
        Holds p h client true t inn (behind o (begun [] t.pending)) (requests ++ m ∷ []) given
  unfolding ClientSession.send
  send-Holds m s inn o requests given idle (orderly, chunked, account) =
      let (inn', out, none, fit) =
        subst
          (Account true client s.read_buffer s.write_buffer inn o given
            (promised h client requests given))
          idle account in
      rw idle (
        (refl, prepare_header_buffer_write-IsFramed m),
        chunked,
        (
          inn',
          framed_out o m
              ∙ ap (λ b. b ++ frame m.content_buffer) out
              ∙ sym (request-snoc requests m),
          tt,
        ),
      )

  -- Stopping begins a shutdown and leaves the buffers as they are.
  stop-same :
      (s : Session Socket)
      → let t = stop p s in
        (t.pending ≡ s.pending ++ async_shutdown ∷ [])
        × (t.read_buffer ≡ s.read_buffer)
        × (t.write_buffer ≡ s.write_buffer)
  unfolding stop
  stop-same s = elim (Bool-cases (p.failed (p.cancel s.socket).0)) [
    | inl e ↦ rw e (refl, refl, refl)
    | inr e ↦ rw e (refl, refl, refl)
  ]

  stop-loose :
      (s : Session Socket) (inn : Bytes) (o : Stream) (requests given : List Message)
      → Holds p h client false s inn o requests given
      → Holds p h client false (stop p s) inn o requests given
  stop-loose s inn o requests given x =
      let (pending, read, write) = stop-same s in
      let shape =
        ap carried pending
        ∙ carried-append s.pending (async_shutdown ∷ [])
        ∙ append-nil (carried s.pending) in
      rw (shape, read, write) x

  stop-Holds :
      (intact : Bool) (s : Session Socket) (inn : Bytes) (o : Stream)
      (requests given : List Message)
      → Holds p h client intact s inn o requests given
      → Holds p h client false (stop p s) inn o requests given
  stop-Holds true s inn o requests given (orderly, chunked, account) =
      stop-loose s inn o requests given (
        AllowsOne-carried p client s.read_buffer s.write_buffer s.pending orderly,
        chunked,
        History-carried client s.read_buffer s.write_buffer inn o given
            (promised h client requests given) s.pending
            (Account-History client s.read_buffer s.write_buffer inn o given
              (promised h client requests given) s.pending account),
      )
  stop-Holds false s inn o requests given x = stop-loose s inn o requests given x

  pub Step-Both : {n m : Network p} → Step p h n m → Both n → Both m
  Step-Both {n} (arrives_up a b e) (c, v) = (
    Holds-Travels client n.client_intact n.client_end _ _ n.up _ n.requests n.received refl
        (arrived-Travels n.up a b e) c,
    v,
  )
  Step-Both {n} (arrives_down a b e) (c, v) = (
    c,
    Holds-Travels server n.server_intact n.server_end _ _ n.down _ n.requests n.handled refl
        (arrived-Travels n.down a b e) v,
  )
  Step-Both {n} (client_completes before after op ec bytes w i o {t} e m g) (c, v) =
      let (travels, read) = Moves-peer (p.failed ec) op bytes n.down n.up i o m in
      (
        Completes-Holds p h client ec bytes w n.client_end n.down n.up i o n.requests n.received
            n.client_intact before after op t e c m g,
        Holds-Travels server n.server_intact n.server_end _ _ n.down i n.requests n.handled read
            travels v,
      )
  Step-Both {n} (server_completes before after op ec bytes w i o {t} e m g) (c, v) =
      let (travels, read) = Moves-peer (p.failed ec) op bytes n.up n.down i o m in
      (
        Holds-Travels client n.client_intact n.client_end _ _ n.up i n.requests n.received read
            travels c,
        Completes-Holds p h server ec bytes w n.server_end n.up n.down i o n.requests n.handled
            n.server_intact before after op t e v m g,
      )
  Step-Both {n} (sends m w intact idle) (c, v) =
      let s = record n.client_end { world = w } in
      let held =
        subst (λ b. Holds p h client b s n.down.consumed n.up n.requests n.received) intact c in
      (
        subst
            (λ b.
              Holds p h client b (ClientSession.send m s) n.down.consumed
                (behind n.up (begun [] (ClientSession.send m s).pending)) (n.requests ++ m ∷ [])
                n.received)
            (sym intact) (send-Holds m s n.down.consumed n.up n.requests n.received idle held),
        v,
      )
  Step-Both {n} (stops w) (c, v) = (
    stop-Holds n.client_intact (record n.client_end { world = w }) n.down.consumed n.up n.requests
        n.received c,
    v,
  )

  pub network-Both : (a b : Socket) (w v : World) → Both (network p a b w v)
  unfolding network session ClientSession.start ServerSession.start
  network-Both a b w v = ((refl, tt, (refl, refl, refl, tt)), (refl, tt, (refl, refl, refl, refl)))

  pub Reach-Both :
      (a b : Socket) (w v : World) {n : Network p} → Reach p h (network p a b w v) n → Both n
  Reach-Both a b w v here = network-Both a b w v
  Reach-Both a b w v (then path st) = Step-Both st (Reach-Both a b w v path)
