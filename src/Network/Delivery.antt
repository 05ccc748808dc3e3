-- ===== src/Network/Delivery.antt =====
-- What the handlers at the two ends of a connection are given, whatever the network and the operating
-- systems do.
use mathlib.Core.List.{IsPrefix}
use micro_tcp.Common.{
  Bool, ◌^◌, ◌<◌, List, [], ◌∷◌, ◌++◌, append_assoc, ◌≡◌, refl, sym, ap, ◌∙◌, Bytes, length, All,
}
use micro_tcp.Platform.{Platform}
use micro_tcp.World.{World}
use micro_tcp.Message.{Message, default_message}
use micro_tcp.Handlers.{Handlers}
use micro_tcp.Session.{Role, server, client, Session}
use micro_tcp.Session.Transfer.{framed}
use micro_tcp.Session.Conversation.{answers}
use micro_tcp.Network.Specification.{
  chunks, framings, contents, replies, IsChunk, replies-append, answers_lem, chunks-IsPrefix,
  framings-IsChunk,
}
use micro_tcp.Network.Handing.{promised}
use micro_tcp.Network.Over.{prefix_trans, prefix_same}
use micro_tcp.Network.Account.{Account-IsPrefix, shown}
use micro_tcp.Network.Ends.{Holds}
use micro_tcp.Network.Invariant.{Reach-Both}
use micro_tcp.Network.{Stream, whole, Network, network, Reach}

pub small :
    (ms : List Message)
    → All (λ m. length m.content_buffer < 10 ^ 10) ms
    → All (λ c. length c < 10 ^ 10) (contents ms)
small [] lt = tt
small (m ∷ ms) (l, lt) = (l, small ms lt)

chunks-append :
    (cs ds : List Bytes)
    → chunks (framings (cs ++ ds)) ≡ chunks (framings cs) ++ chunks (framings ds)
chunks-append [] ds = refl
chunks-append (c ∷ cs) ds =
    ap (λ b. (framed c).header_buffer ++ (c ++ b)) (chunks-append cs ds)
    ∙ sym (
        append_assoc (framed c).header_buffer _ _
        ∙ ap (λ b. (framed c).header_buffer ++ b) (append_assoc c _ _))

-- A part of some contents is sent as a part of their frames.
frames-IsPrefix :
    (cs ds : List Bytes) → IsPrefix cs ds → IsPrefix (chunks (framings cs)) (chunks (framings ds))
frames-IsPrefix cs ds (t, e) =
    (chunks (framings t), sym (chunks-append cs t) ∙ ap (λ x. chunks (framings x)) e)

module _ (p : Platform) (h : Handlers) where
  open p use {Socket, indeterminate}

  -- What was handed over at one end was promised at the other.
  pub delivered :
      (r r' : Role) (intact intact' : Bool) (s s' : Session Socket) (x o : Stream) (inn : Bytes)
      (requests given given' fs : List Message)
      → Holds p h r intact s x.consumed o requests given
      → Holds p h r' intact' s' inn x requests given'
      → All (IsChunk indeterminate) fs
      → IsPrefix (promised h r' requests given') (chunks fs)
      → IsPrefix given fs
  delivered r r' intact intact' s s' x o inn requests given given' fs (_, chunked, reads)
        (_, _, writes) all promise =
      chunks-IsPrefix indeterminate given fs chunked all (
        prefix_trans (chunks given) x.consumed (chunks fs)
          (Account-IsPrefix intact r s.read_buffer s.write_buffer x.consumed o given _
            (shown intact s.pending) reads).0
          (prefix_trans x.consumed (whole x) (chunks fs) (x.arrived ++ x.unsent, refl)
            (prefix_trans (whole x) (promised h r' requests given') (chunks fs)
              (Account-IsPrefix intact' r' s'.read_buffer s'.write_buffer inn x given' _
                (shown intact' s'.pending) writes).1
              promise)))

  -- The replies to some of the requests, in their order, are some of the answers.
  pub replies-IsPrefix :
      (write : Message) (qs requests : List Message)
      → IsPrefix qs (framings (contents requests))
      → IsPrefix (replies h write qs) (answers h write requests)
  replies-IsPrefix write qs requests (t, e) =
      let (u, f) = replies-append h write qs t in
      (u, f ∙ ap (λ ms. replies h write ms) e ∙ sym (answers_lem h write requests))

-- A client session and a server session with a connection between them, in every state that is
-- reached from their start by any sequence of: bytes that arrive, in pieces of any size;
-- completions of operations that are pending, with any error codes, that transfer the bytes of
-- these streams; messages that the user sends while no operation of the client is pending or has
-- failed and the client's session was not stopped; and calls of stop on the client's session,
-- whatever is pending. If the contents of the messages sent and the specified answers to them have
-- less than 10^10 bytes each, the messages that the request handler was given are the first of the
-- framed messages sent, in their order and unchanged, and those that the response handler was given
-- are the first of the framed specified answers.
pub Reach-IsPrefix :
    (p : Platform) (h : Handlers) (a b : p.Socket) (w v : World) {n : Network p}
    → Reach p h (network p a b w v) n
    → All (λ m. length m.content_buffer < 10 ^ 10) n.requests
    → All (λ c. length c < 10 ^ 10) (answers h default_message n.requests)
    → IsPrefix n.handled (framings (contents n.requests))
      × IsPrefix n.received (framings (answers h default_message n.requests))
Reach-IsPrefix p h a b w v {n} path lt lt' =
    let (c, s) = Reach-Both p h a b w v path in
    let handled =
      delivered p h server client _ _ n.server_end n.client_end n.up n.down _ n.requests n.handled
        n.received (framings (contents n.requests)) s c
        (framings-IsChunk p.indeterminate (contents n.requests) (small n.requests lt))
        (prefix_same refl) in
    (
      handled,
      delivered p h client server _ _ n.client_end n.server_end n.down n.up _ n.requests n.received
          n.handled (framings (answers h default_message n.requests)) c s
          (framings-IsChunk p.indeterminate (answers h default_message n.requests) lt')
          (frames-IsPrefix _ _ (replies-IsPrefix p h default_message n.handled n.requests handled)),
    )
