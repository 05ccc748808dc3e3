-- ===== src/Network/Counts.antt =====
-- The requests that were sent and the responses that were received, while no operation of the client has failed.
use mathlib.Core.Path.{subst}
use micro_tcp.Common.{
  ◌+◌, Bool, true, false, not, ◌&&◌, List, [], ◌∷◌, ◌++◌, ok, ◌≡◌, refl, ap, Bytes, length, arith,
  length-append,
}
use micro_tcp.Platform.{Platform}
use micro_tcp.World.{World}
use micro_tcp.Message.{Message}
use micro_tcp.Handlers.{Handlers}
use micro_tcp.Session.{client, Operation, Session, session}
use micro_tcp.Session.ClientSession
use micro_tcp.Session.Completion.{complete}
use micro_tcp.Network.Phases.{open_exchanges, Advances, complete-Advances}
use micro_tcp.Network.History.{History}
use micro_tcp.Network.Account.{HistoryOf-Transfers}
use micro_tcp.Network.Ends.{Holds-History}
use micro_tcp.Network.Handing.{promised}
use micro_tcp.Network.Invariant.{Both, Step-Both, network-Both}
use micro_tcp.Network.{
  Stream, handed, Network, network, Step, arrives_up, arrives_down, client_completes,
  server_completes, sends, stops, Reach, here, then,
}

both_true : (a b : Bool) → a && not b ≡ true → (a ≡ true) × (b ≡ false)
both_true true false e = (refl, refl)
both_true true true e = cc
both_true false b e = cc

module _ (p : Platform) (h : Handlers) where
  open p use {Socket, ErrorCode}

  -- One exchange at most is open.
  abbrev pub Counts : Network p → Type 0
  Counts n =
      n.client_intact ≡ true
      → length n.requests ≡ length n.received + open_exchanges client n.client_end.pending

  -- A completion of a client's operation.
  completes-Counts :
      (s : Session Socket) (inn : Bytes) (o : Stream) (requests given : List Message)
      (before after : List Operation) (op : Operation) (ec : ErrorCode) (bytes : Bytes) (w : World)
      (t : Session Socket)
      → History client s.read_buffer s.write_buffer inn o given
          (promised h client requests given)
          (before ++ op ∷ after)
      → p.failed ec ≡ false
      → s.pending ≡ before ++ op ∷ after
      → complete p h client op ec bytes (record s { pending = before ++ after; world = w }) ≡ ok t
      → length requests ≡ length given + open_exchanges client s.pending
      → length requests ≡ length (given ++ handed p op ec bytes s) + open_exchanges client t.pending
  completes-Counts s inn o requests given [] [] op ec bytes w t x fine e g c =
      let (fewer, counts) = subst (Advances p h ec fine s w bytes client op) g (
        complete-Advances p h ec fine s w bytes client op (
          HistoryOf-Transfers client s.read_buffer s.write_buffer inn o given
            (promised h client requests given) op x)) in
      omega (
        arith,
        length-append given (handed p op ec bytes s),
        c,
        ap (λ ops. open_exchanges client ops) e,
        counts,
      )
  completes-Counts s inn o requests given [] (y ∷ after) op ec bytes w t x fine e g c = absurd x
  completes-Counts s inn o requests given (y ∷ []) after op ec bytes w t x fine e g c = absurd x
  completes-Counts s inn o requests given (y ∷ z ∷ before) after op ec bytes w t x fine e g c =
      absurd x

  Step-Counts : {n m : Network p} → Step p h n m → Both p h n → Counts n → Counts m
  unfolding ClientSession.send
  Step-Counts (arrives_up a b e) x c = c
  Step-Counts (arrives_down a b e) x c = c
  Step-Counts (server_completes before after op ec bytes w i o e m g) x c = c
  Step-Counts {n} (client_completes before after op ec bytes w i o {t} e m g) x c = λ y.
      let (intact, fine) = both_true n.client_intact (p.failed ec) y in
      let s = n.client_end in
      let known =
        Holds-History p h client s n.down.consumed n.up n.requests n.received intact x.0 in
      completes-Counts s n.down.consumed n.up n.requests n.received before after op ec bytes w t
        (subst
          (History client s.read_buffer s.write_buffer n.down.consumed n.up n.received
            (promised h client n.requests n.received))
          e known.1)
        fine e g (c intact)
  Step-Counts {n} (stops w) x c = λ y. cc
  Step-Counts {n} (sends m w intact idle) x c = λ y.
      let before = c intact in
      rw idle (
        omega (
          arith,
          length-append n.requests (m ∷ []),
          before,
          ap (λ ops. open_exchanges client ops) idle,
        ))

  pub Reach-Counts :
      (a b : Socket) (w v : World) {n : Network p}
      → Reach p h (network p a b w v) n
      → Both p h n × Counts n
  unfolding network session ClientSession.start
  Reach-Counts a b w v here = (network-Both p h a b w v, λ y. refl)
  Reach-Counts a b w v (then path st) =
      let (x, c) = Reach-Counts a b w v path in (Step-Both p h st x, Step-Counts st x c)
