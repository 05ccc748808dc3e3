-- ===== src/Network/Liveness.antt =====
-- What two sessions have begun can be concluded: no two of their operations wait for one another.
use mathlib.Core.Path.{subst}
use micro_tcp.Common.{ℕ, zero, suc, ◌≤◌, false, inl, inr, ◌≡◌, refl, sym, ◌∙◌, arith}
use micro_tcp.Platform.{Platform}
use micro_tcp.World.{World}
use micro_tcp.Handlers.{Handlers}
use micro_tcp.Network.Progress.{IsIntact, AreSmall, HasConcluded, rank, Reach-append}
use micro_tcp.Network.{Network, network, Reach, here}
use micro_tcp.Network.Turns.{turn}

module _ (p : Platform) (h : Handlers) (fine : p.ErrorCode) (succeeds : p.failed fine ≡ false)
    (a b : p.Socket) (w v : World) where
  open p use {Socket, indeterminate}

  -- What is left is concluded from some state on.
  abbrev Concludes : Network p → Type 0
  Concludes n =
      (m : Network p) × Reach p h n m × IsIntact m × (m.requests ≡ n.requests) × HasConcluded h m

  conclude :
      (k : ℕ) (n : Network p)
      → Reach p h (network p a b w v) n
      → IsIntact n
      → AreSmall h n.requests
      → rank n ≤ k
      → Concludes n
  conclude zero n path intact lt le = elim (turn p h fine succeeds a b w v n path intact lt) [
    | inl done ↦ (n, here, intact, refl, done)
    | inr (m, on, intact', same, less) ↦ absurd (omega arith)
  ]
  conclude (suc k) n path intact lt le = elim (turn p h fine succeeds a b w v n path intact lt) [
    | inl done ↦ (n, here, intact, refl, done)
    | inr (m, on, intact', same, less) ↦
        let (l, path', intact'', same', done) =
          conclude k m (Reach-append path on) intact' (subst (AreSmall h) (sym same) lt)
            (omega arith) in
        (l, Reach-append on path', intact'', same' ∙ same, done)
  ]

-- A client session and a server session with a connection between them, in every state that is
-- reached from their start and in which no operation has failed and the client's session was not
-- stopped, by whatever pieces the bytes arrived in and in whatever order the operations completed:
-- if the contents of the messages sent and the specified answers to them have less than 10^10 bytes
-- each, and there is an error code that is no failure, there are further arrivals and completions,
-- none of which fails, and no further message sent, that lead to a state in which the request
-- handler was given exactly the framed messages sent, the response handler exactly the framed
-- specified answers, and the client has nothing pending.
pub Reach-HasConcluded :
    (p : Platform) (h : Handlers) (fine : p.ErrorCode) (a b : p.Socket) (w v : World)
    {n : Network p}
    → p.failed fine ≡ false
    → Reach p h (network p a b w v) n
    → IsIntact n
    → AreSmall h n.requests
    → (m : Network p) × Reach p h n m × IsIntact m × (m.requests ≡ n.requests) × HasConcluded h m
Reach-HasConcluded p h fine a b w v {n} succeeds path intact lt =
    conclude p h fine succeeds a b w v (rank n) n path intact lt (omega arith)
