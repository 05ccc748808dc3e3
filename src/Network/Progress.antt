-- ===== src/Network/Progress.antt =====
-- A completion without an error brings both ends nearer to the end of what they have begun.
use mathlib.Core.Path.{subst}
use mathlib.Core.List.{IsPrefix}
use micro_tcp.Common.{
  ℕ, ◌+◌, ◌-◌, ◌*◌, ◌^◌, ◌<◌, ◌≤◌, Bool, true, false, not, ◌&&◌, List, [], ◌∷◌, ◌≡◌, refl, sym, ap,
  ◌∙◌, Bytes, length, arith, All, length-append,
}
use micro_tcp.Platform.{Platform}
use micro_tcp.World.{World}
use micro_tcp.Message.{Message, default_message}
use micro_tcp.Handlers.{Handlers}
use micro_tcp.Session.{Role, server, client, Operation, Session}
use micro_tcp.Session.Conversation.{answers}
use micro_tcp.Network.Specification.{framings, contents}
use micro_tcp.Network.History.{History}
use micro_tcp.Network.Carried.{Transfers}
use micro_tcp.Network.Account.{HistoryOf-Transfers}
use micro_tcp.Network.Handing.{promised}
use micro_tcp.Network.Invariant.{Reach-Both}
use micro_tcp.Network.Ends.{Holds, Holds-History}
use micro_tcp.Network.Delivery.{Reach-IsPrefix}
use micro_tcp.Network.Phases.{left, Advances, complete-Advances}
use micro_tcp.Network.Reading.{CanComplete}
use micro_tcp.Network.{
  Stream, Moves, handed, Network, network, client_completes, server_completes, Reach, here, then,
}

module _ {p : Platform} {h : Handlers} where
  pub Reach-append : {n m k : Network p} → Reach p h n m → Reach p h m k → Reach p h n k
  Reach-append x here = x
  Reach-append x (then path st) = then (Reach-append x path) st

pub length-framings : (cs : List Bytes) → length (framings cs) ≡ length cs
length-framings [] = refl
length-framings (c ∷ cs) = omega (arith, length-framings cs)

pub length-contents : (ms : List Message) → length (contents ms) ≡ length ms
length-contents [] = refl
length-contents (m ∷ ms) = omega (arith, length-contents ms)

pub length-IsPrefix : {A : Type 0} (xs ys : List A) → IsPrefix xs ys → length xs ≤ length ys
length-IsPrefix xs ys (t, e) = omega (arith, length-append xs t, ap length e)

-- The contents sent, and the specified answers to them, have less than 10^10 bytes each.
abbrev pub AreSmall : Handlers → List Message → Type 0
AreSmall h requests =
    All (λ m. length m.content_buffer < 10 ^ 10) requests
    × All (λ c. length c < 10 ^ 10) (answers h default_message requests)

module _ {p : Platform} where
  -- No operation has failed.
  abbrev pub IsIntact : Network p → Type 0
  IsIntact n = (n.client_intact ≡ true) × (n.server_intact ≡ true)

  -- The completions that are left.
  abbrev pub rank : Network p → ℕ
  rank n =
      left client n.client_end.pending
      + (left server n.server_end.pending + 4 * (length n.requests - length n.handled))

  -- The handlers were given all that they are to be given, and the client waits for its user.
  abbrev pub HasConcluded : Handlers → Network p → Type 0
  HasConcluded h n =
      (n.client_end.pending ≡ [])
      × (n.handled ≡ framings (contents n.requests))
      × (n.received ≡ framings (answers h default_message n.requests))

module _ (p : Platform) (h : Handlers) (fine : p.ErrorCode) (succeeds : p.failed fine ≡ false)
    (a b : p.Socket) (w v : World) where
  open p use {Socket, failed}

  abbrev pub Onward : Network p → Type 0
  Onward n =
      (m : Network p) × Reach p h n m × IsIntact m × (m.requests ≡ n.requests) × (rank m < rank n)

  pub Onward-after :
      (n m : Network p)
      → Reach p h n m
      → m.requests ≡ n.requests
      → rank m ≡ rank n
      → Onward m
      → Onward n
  Onward-after n m path same even (k, path', intact, same', less) =
      (k, Reach-append path path', intact, same' ∙ same, omega arith)

  pub handled-le :
      {n : Network p}
      → Reach p h (network p a b w v) n
      → AreSmall h n.requests
      → length n.handled ≤ length n.requests
  handled-le {n} path (lt, lt') =
      let (t, e) = (Reach-IsPrefix p h a b w v path lt lt').0 in
      omega (
        arith,
        length-append n.handled t,
        ap length e,
        length-framings (contents n.requests),
        length-contents n.requests,
      )

  still_true : (x : Bool) → x ≡ true → x && not (failed fine) ≡ true
  still_true x e = rw (e, succeeds)

  pending-Transfers :
      (r : Role) (intact : Bool) (s : Session Socket) (inn : Bytes) (o : Stream)
      (requests given : List Message) (op : Operation)
      → intact ≡ true
      → s.pending ≡ op ∷ []
      → Holds p h r intact s inn o requests given
      → Transfers op
  pending-Transfers r intact s inn o requests given op e e' x =
      HistoryOf-Transfers r s.read_buffer s.write_buffer inn o given (promised h r requests given)
        op
        (subst (History r s.read_buffer s.write_buffer inn o given (promised h r requests given)) e'
          (Holds-History p h r s inn o requests given e x).1)

  pub client_goes :
      (n : Network p)
      → Reach p h (network p a b w v) n
      → IsIntact n
      → CanComplete p h fine succeeds client n.client_end n.down n.up
      → Onward n
  client_goes n path (ci, si) (op, bytes, i, o, t, e, m, g) =
      let transfers =
        pending-Transfers client n.client_intact n.client_end n.down.consumed n.up n.requests
          n.received op ci e (Reach-Both p h a b w v path).0 in
      let (fewer, _) =
        subst (Advances p h fine succeeds n.client_end n.client_end.world bytes client op) g (
          complete-Advances p h fine succeeds n.client_end n.client_end.world bytes client op
            transfers) in
      (
        _,
        then here (
            client_completes [] [] op fine bytes n.client_end.world i o e
              (subst (λ b. Moves b op bytes n.down n.up i o) (sym succeeds) m) g),
        (still_true n.client_intact ci, si),
        refl,
        omega (arith, ap (λ ops. left client ops) e),
      )

  pub server_goes :
      (n : Network p)
      → Reach p h (network p a b w v) n
      → IsIntact n
      → AreSmall h n.requests
      → CanComplete p h fine succeeds server n.server_end n.up n.down
      → Onward n
  server_goes n path (ci, si) small (op, bytes, i, o, t, e, m, g) =
      let transfers =
        pending-Transfers server n.server_intact n.server_end n.up.consumed n.down n.requests
          n.handled op si e (Reach-Both p h a b w v path).1 in
      let (fewer, _) =
        subst (Advances p h fine succeeds n.server_end n.server_end.world bytes server op) g (
          complete-Advances p h fine succeeds n.server_end n.server_end.world bytes server op
            transfers) in
      let st =
        server_completes [] [] op fine bytes n.server_end.world i o e
          (subst (λ b. Moves b op bytes n.up n.down i o) (sym succeeds) m) g in
      (
        _,
        then here st,
        (ci, still_true n.server_intact si),
        refl,
        omega (
          arith,
          ap (λ ops. left server ops) e,
          length-append n.handled (handed p op fine bytes n.server_end),
          handled-le (then path st) small,
        ),
      )
