-- ===== src/Network/Closing.antt =====
-- One end behind a failure, and behind the operations that close the connection.
use mathlib.Core.Path.{subst}
use micro_tcp.Common.{
  true, false, List, [], ◌++◌, append-nil, Result, ok, ◌≡◌, ◌⊎◌, refl, sym, ap, ◌∙◌, Bytes, length,
  drop_front, All, inl, inr,
}
use micro_tcp.Platform.{Platform}
use micro_tcp.World.{World}
use micro_tcp.Message.{Message}
use micro_tcp.Handlers.{Handlers}
use micro_tcp.Session.{Role, Operation, Session}
use micro_tcp.Session.Invariant.{AllowsOne}
use micro_tcp.Network.Specification.{IsChunk}
use micro_tcp.Network.History.{HistoryOf}
use micro_tcp.Network.Handing.{promised}
use micro_tcp.Network.Over.{
  EndsOver, LeavesOver, failed-over, Closes-over, Moves-over, Moves-same, HistoryOf-IsPrefix,
}
use micro_tcp.Network.{Stream, whole, behind, written, begun, Moves, handed}
use micro_tcp.Session.Adding.{behind_rest}
use micro_tcp.Network.Carried.{Closes, carried, carried-append, carried-written}
use micro_tcp.Network.Account.{Account, Account-Travels, Travels}
use micro_tcp.Network.Ends.{Holds, Done, handed_none}

module _ (p : Platform) (h : Handlers) (r : Role) (ec : p.ErrorCode) (bytes : Bytes) (w : World)
    (s : Session p.Socket) (i o i' o' : Stream) (requests given : List Message) where
  open p use {Socket, ErrorCode, indeterminate, failed}

  abbrev Does : Operation → Result (Session Socket)
  Does op = Done p h r ec bytes w s i o i' o' requests given op

  -- The session as it was, with nothing of an exchange begun, and with these operations pending before.
  given_same :
      (op : Operation) → (failed ec ≡ true) ⊎ Closes op → given ≡ given ++ handed p op ec bytes s
  given_same op why = sym (
      ap (λ hs. given ++ hs) (handed_none p h r ec bytes w s i o i' o' requests given op why)
      ∙ append-nil given)

  -- A session that is no more intact, behind the completion of an operation that was pending with `rest`.
  pub loose :
      (rest ops : List Operation) (t : Session Socket) (given' : List Message)
      → carried (rest ++ t.pending) ≡ ops
      → AllowsOne p r t.read_buffer t.write_buffer ops
      → All (IsChunk indeterminate) given'
      → Account false r t.read_buffer t.write_buffer i'.consumed
          (behind o' (written t.pending))
          given'
          (promised h r requests given')
          ops
      → Holds p h r false
          (behind_rest rest t)
          i'.consumed
          (behind o' (begun rest (rest ++ t.pending)))
          requests
          given'
  loose rest ops t given' e a chunked x = (
    subst (AllowsOne p r t.read_buffer t.write_buffer) (sym e) a,
    chunked,
    subst
        (λ b.
          Account false r t.read_buffer t.write_buffer i'.consumed (behind o' b) given'
            (promised h r requests given') (carried (rest ++ t.pending)))
        (sym (ap written (drop_front rest t.pending (length rest) refl)))
        (subst
          (Account false r t.read_buffer t.write_buffer i'.consumed (behind o' (written t.pending))
            given' (promised h r requests given'))
          (sym e) x),
  )

  pub behind-carried :
      (rest ops : List Operation) → carried rest ≡ [] → carried (rest ++ ops) ≡ carried ops
  behind-carried rest ops e = carried-append rest ops ∙ ap (λ l. l ++ carried ops) e

  -- Behind a failed operation of an exchange.
  pub failed-Holds :
      (rest : List Operation) (op : Operation) (t : Session Socket)
      → failed ec ≡ true
      → carried rest ≡ []
      → All (IsChunk indeterminate) given
      → HistoryOf r s.read_buffer s.write_buffer i.consumed o given (promised h r requests given) op
      → Moves (failed ec) op bytes i o i' o'
      → Does op ≡ ok t
      → Holds p h r false
          (behind_rest rest t)
          i'.consumed
          (behind o' (begun rest (rest ++ t.pending)))
          requests
          (given ++ handed p op ec bytes s)
  failed-Holds rest op t e none chunked x m g =
      let over =
        subst (EndsOver p h) g
          (failed-over p h r op ec bytes (record s { pending = []; world = w }) e refl) in
      let (reads, writes) =
        HistoryOf-IsPrefix r s.read_buffer s.write_buffer i.consumed o given
          (promised h r requests given) op x in
      subst
        (λ g.
          Holds p h r false (behind_rest rest t) i'.consumed
            (behind o' (begun rest (rest ++ t.pending))) requests g)
        (given_same op (inl e))
        (loose rest [] t given (behind-carried rest t.pending none ∙ over) tt chunked
          (Moves-over (failed ec) op bytes i o i' o' given _ t.pending m reads writes over))

  unwritten :
      (ops : List Operation) → carried ops ≡ [] → o' ≡ o → Travels o (behind o' (written ops))
  unwritten ops over eo =
      rw (carried-written ops over, append-nil o'.unsent)
        (ap (λ x. whole x) eo, λ none. ap (λ x. x.unsent) eo ∙ none)

  -- Behind an operation that closes the connection.
  pub Closes-Holds :
      (rest : List Operation) (op : Operation) (t : Session Socket)
      → Closes op
      → AllowsOne p r s.read_buffer s.write_buffer (carried rest)
      → All (IsChunk indeterminate) given
      → Account false r s.read_buffer s.write_buffer i.consumed o given
          (promised h r requests given)
          (carried rest)
      → Moves (failed ec) op bytes i o i' o'
      → Does op ≡ ok t
      → Holds p h r false
          (behind_rest rest t)
          i'.consumed
          (behind o' (begun rest (rest ++ t.pending)))
          requests
          (given ++ handed p op ec bytes s)
  Closes-Holds rest op t x a chunked account m g =
      let (over, er, ew) =
        subst (LeavesOver p h (record s { pending = []; world = w })) g
          (Closes-over p h r op ec bytes (record s { pending = []; world = w }) x refl) in
      let (ei, eo) = Moves-same (failed ec) op bytes i o i' o' x m in
      let arrived =
        Account-Travels false r s.read_buffer s.write_buffer i.consumed o
          (behind o' (written t.pending)) given (promised h r requests given) (carried rest)
          (unwritten t.pending over eo) account in
      subst
        (λ g.
          Holds p h r false (behind_rest rest t) i'.consumed
            (behind o' (begun rest (rest ++ t.pending))) requests g)
        (given_same op (inr x))
        (loose rest (carried rest) t given
          (carried-append rest t.pending
            ∙ ap (λ l. carried rest ++ l) over
            ∙ append-nil (carried rest))
          (rw (er, ew) a) chunked (rw (er, ew, ei) arrived))
