-- ===== src/Network/Completing.antt =====
-- The completion of any operation that is pending at one end, with any error code.
use mathlib.Core.Path.{subst}
use micro_tcp.Common.{
  Bool, true, false, not, ◌&&◌, List, [], ◌∷◌, ◌++◌, Result, ok, throw, ◌≡◌, inl, inr, refl, sym,
  ap, ◌∙◌, Bytes, All,
}
use micro_tcp.Platform.{Platform}
use micro_tcp.World.{World}
use micro_tcp.Message.{Message}
use micro_tcp.Handlers.{Handlers}
use micro_tcp.Session.{Role, Operation, Session}
use micro_tcp.Session.Completion.{complete}
use micro_tcp.Session.Invariant.{Allows, AllowsOne}
use micro_tcp.Session.Traces.{AllowsOne-only}
use micro_tcp.Session.Adding.{behind_rest, all_behind, complete-behind}
use micro_tcp.Network.Specification.{IsChunk}
use micro_tcp.Network.History.{HistoryOf}
use micro_tcp.Network.Handing.{promised}
use micro_tcp.Network.Carried.{
  Transfers-Closes, carried, carry-Transfers, carry-Closes, carried-append,
}
use micro_tcp.Network.Account.{Account, History-Account, History-carried}
use micro_tcp.Network.Ends.{Holds, Done, fine-Done}
use micro_tcp.Network.Closing.{loose, behind-carried, failed-Holds, Closes-Holds}
use micro_tcp.Network.{Stream, behind, written, begun, Moves, handed}

pub AllowsOne-carried :
    (p : Platform) (r : Role) (read write : Message) (ops : List Operation)
    → AllowsOne p r read write ops
    → AllowsOne p r read write (carried ops)
AllowsOne-carried p r read write [] a = tt
AllowsOne-carried p r read write (op ∷ []) a = elim (Transfers-Closes op) [
  | inl x ↦ subst (AllowsOne p r read write) (sym (carry-Transfers op [] x)) a
  | inr x ↦ subst (AllowsOne p r read write) (sym (carry-Closes op [] x)) tt
]
AllowsOne-carried p r read write (op ∷ op' ∷ ops) a = absurd a

module _ (p : Platform) (h : Handlers) (r : Role) (ec : p.ErrorCode) (bytes : Bytes) (w : World)
    (s : Session p.Socket) (i o i' o' : Stream) (requests given : List Message) where
  open p use {Socket, ErrorCode, indeterminate, failed}

  -- What holds behind the completion of `op`, which was pending with `rest`.
  abbrev Held : Bool → Operation → List Operation → Result (Session Socket) → Type 0
  Held intact op rest (ok t) =
      Holds p h r intact t i'.consumed (behind o' (begun rest t.pending)) requests
        (given ++ handed p op ec bytes s)
  Held intact op rest (throw e) = Unit

  abbrev Does : Operation → Result (Session Socket)
  Does op = Done p h r ec bytes w s i o i' o' requests given op

  Held-behind :
      (intact : Bool) (op : Operation) (rest : List Operation) (x : Result (Session Socket))
      → ((t : Session Socket) → Does op ≡ ok t → Held intact op rest (ok (behind_rest rest t)))
      → Does op ≡ x
      → Held intact op rest (all_behind rest x)
  Held-behind intact op rest (ok t) k e = k t e
  Held-behind intact op rest (throw x) k e = tt

  -- Nothing else is pending on a session that is intact.
  intact-Held :
      (bad : Bool) (op : Operation) (t : Session Socket)
      → failed ec ≡ bad
      → s.pending ≡ op ∷ []
      → Holds p h r true s i.consumed o requests given
      → Moves (failed ec) op bytes i o i' o'
      → Does op ≡ ok t
      → Held (true && not bad) op [] (ok t)
  intact-Held bad op t b e (orderly, chunked, account) m g =
      by_code bad b (subst (AllowsOne p r s.read_buffer s.write_buffer) e orderly) (
        subst
          (Account true r s.read_buffer s.write_buffer i.consumed o given
            (promised h r requests given))
          e account)
    where
      by_code :
          (bad : Bool)
          → failed ec ≡ bad
          → Allows p r s.read_buffer s.write_buffer op
          → HistoryOf r s.read_buffer s.write_buffer i.consumed o given
              (promised h r requests given)
              op
          → Held (true && not bad) op [] (ok t)
      by_code false b a x =
          let (a', chunked', x') =
            fine-Done p h r ec bytes w s i o i' o' requests given op t b chunked a x m g in
          (
            a',
            chunked',
            History-Account r t.read_buffer t.write_buffer i'.consumed
                (behind o' (written t.pending)) (given ++ handed p op ec bytes s)
                (promised h r requests (given ++ handed p op ec bytes s)) t.pending x',
          )
      by_code true b a x =
          failed-Holds p h r ec bytes w s i o i' o' requests given [] op t b refl chunked x m g

  -- An operation of an exchange, on a session that is not.
  transfers-Held :
      (bad : Bool) (rest : List Operation) (op : Operation) (t : Session Socket)
      → failed ec ≡ bad
      → carried rest ≡ []
      → All (IsChunk indeterminate) given
      → Allows p r s.read_buffer s.write_buffer op
      → HistoryOf r s.read_buffer s.write_buffer i.consumed o given (promised h r requests given) op
      → Moves (failed ec) op bytes i o i' o'
      → Does op ≡ ok t
      → Held false op rest (ok (behind_rest rest t))
  transfers-Held false rest op t b none chunked a x m g =
      let (a', chunked', x') =
        fine-Done p h r ec bytes w s i o i' o' requests given op t b chunked a x m g in
      loose p h r ec bytes w s i o i' o' requests given rest (carried t.pending) t
        (given ++ handed p op ec bytes s)
        (behind-carried p h r ec bytes w s i o i' o' requests given rest t.pending none)
        (AllowsOne-carried p r t.read_buffer t.write_buffer t.pending a') chunked'
        (History-carried r t.read_buffer t.write_buffer i'.consumed (behind o' (written t.pending))
          (given ++ handed p op ec bytes s)
          (promised h r requests (given ++ handed p op ec bytes s)) t.pending x')
  transfers-Held true rest op t b none chunked a x m g =
      failed-Holds p h r ec bytes w s i o i' o' requests given rest op t b none chunked x m g

  closing-Held :
      (before after : List Operation) (op : Operation) (t : Session Socket)
      → s.pending ≡ before ++ op ∷ after
      → Holds p h r false s i.consumed o requests given
      → Moves (failed ec) op bytes i o i' o'
      → Does op ≡ ok t
      → Held false op (before ++ after) (ok (behind_rest (before ++ after) t))
  closing-Held before after op t e (a, chunked, account) m g = elim (Transfers-Closes op) [
    | inl x ↦
        let shape : carried s.pending ≡ carried before ++ op ∷ carried after =
          ap carried e
          ∙ carried-append before (op ∷ after)
          ∙ ap (λ l. carried before ++ l) (carry-Transfers op (carried after) x) in
        let (none, none', fits) =
          AllowsOne-only p h r s.read_buffer s.write_buffer (carried before) (carried after) op
            (subst (AllowsOne p r s.read_buffer s.write_buffer) shape a) in
        transfers-Held (failed ec) (before ++ after) op t refl
          (carried-append before after ∙ ap (λ l. l ++ carried after) none ∙ none') chunked fits
          (subst
            (Account false r s.read_buffer s.write_buffer i.consumed o given
              (promised h r requests given))
            (shape ∙ ap (λ l. l ++ op ∷ carried after) none ∙ ap (λ l. op ∷ l) none') account)
          m g
    | inr x ↦
        let shape : carried s.pending ≡ carried (before ++ after) =
          ap carried e
          ∙ carried-append before (op ∷ after)
          ∙ ap (λ l. carried before ++ l) (carry-Closes op (carried after) x)
          ∙ sym (carried-append before after) in
        Closes-Holds p h r ec bytes w s i o i' o' requests given (before ++ after) op t x
          (subst (AllowsOne p r s.read_buffer s.write_buffer) shape a) chunked
          (subst
            (Account false r s.read_buffer s.write_buffer i.consumed o given
              (promised h r requests given))
            shape account)
          m g
  ]

  pub Completes-Holds :
      (intact : Bool) (before after : List Operation) (op : Operation) (t : Session Socket)
      → s.pending ≡ before ++ op ∷ after
      → Holds p h r intact s i.consumed o requests given
      → Moves (failed ec) op bytes i o i' o'
      → complete p h r op ec bytes (record s { pending = before ++ after; world = w }) ≡ ok t
      → Holds p h r
          (intact && not (failed ec))
          t
          i'.consumed
          (behind o' (begun (before ++ after) t.pending))
          requests
          (given ++ handed p op ec bytes s)
  Completes-Holds true [] [] op t e x m g =
      subst (Held (true && not (failed ec)) op [])
        (sym (complete-behind p h [] r op ec bytes (record s { world = w })) ∙ g)
        (Held-behind (true && not (failed ec)) op [] (Does op)
          (λ t d. intact-Held (failed ec) op t refl e x m d) refl)
  Completes-Holds true [] (y ∷ after) op t e x m g =
      absurd (subst (AllowsOne p r s.read_buffer s.write_buffer) e x.0)
  Completes-Holds true (y ∷ []) after op t e x m g =
      absurd (subst (AllowsOne p r s.read_buffer s.write_buffer) e x.0)
  Completes-Holds true (y ∷ z ∷ before) after op t e x m g =
      absurd (subst (AllowsOne p r s.read_buffer s.write_buffer) e x.0)
  Completes-Holds false before after op t e x m g =
      subst (Held false op (before ++ after))
        (sym (complete-behind p h (before ++ after) r op ec bytes (record s { world = w })) ∙ g)
        (Held-behind false op (before ++ after) (Does op)
          (λ t d. closing-Held before after op t e x m d) refl)
