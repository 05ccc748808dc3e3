-- ===== src/Network/Concluding.antt =====
-- When a client waits for its user, all that was sent has been answered.
use mathlib.Core.Path.{subst}
use mathlib.Core.List.{IsPrefix}
use micro_tcp.Common.{
  ◌+◌, ◌^◌, ◌<◌, ◌≤◌, List, [], ◌∷◌, ◌++◌, inl, inr, append-nil, ◌≡◌, refl, sym, ap, ◌∙◌, Bytes,
  length, arith, All, All-split, List-cases, length-append,
}
use micro_tcp.Platform.{Platform}
use micro_tcp.World.{World}
use micro_tcp.Message.{Message, default_message}
use micro_tcp.Handlers.{Handlers}
use micro_tcp.Session.{server, client}
use micro_tcp.Session.Service.{cleared}
use micro_tcp.Session.Conversation.{answers}
use micro_tcp.Network.Specification.{framings, contents, replies, framings-IsChunk, answers_lem}
use micro_tcp.Network.Over.{prefix_same}
use micro_tcp.Network.Counts.{Reach-Counts}
use micro_tcp.Network.Delivery.{Reach-IsPrefix, delivered, replies-IsPrefix}
use micro_tcp.Network.Progress.{
  AreSmall, HasConcluded, length-framings, length-contents, length-IsPrefix,
}
use micro_tcp.Network.{Network, network, Reach}

IsPrefix-whole : {A : Type 0} (xs ys : List A) → IsPrefix xs ys → length ys ≤ length xs → xs ≡ ys
IsPrefix-whole xs ys (t, e) le = elim (List-cases t) [
  | inl none ↦ sym (append-nil xs) ∙ ap (λ u. xs ++ u) (sym none) ∙ e
  | inr (x, u, more) ↦ absurd (omega (arith, length-append xs t, ap length e, ap length more))
]

pub length-replies :
    (h : Handlers) (write : Message) (qs : List Message) → length (replies h write qs) ≡ length qs
length-replies h write [] = refl
length-replies h write (q ∷ qs) = omega (arith, length-replies h cleared qs)

length-answers :
    (h : Handlers) (write : Message) (ms : List Message) → length (answers h write ms) ≡ length ms
length-answers h write ms =
    ap length (answers_lem h write ms)
    ∙ length-replies h write (framings (contents ms))
    ∙ length-framings (contents ms)
    ∙ length-contents ms

module _ (p : Platform) (h : Handlers) where
  -- The replies to the requests that were handled.
  abbrev pub replied : Network p → List Bytes
  replied n = replies h default_message n.handled

module _ (p : Platform) (h : Handlers) (a b : p.Socket) (w v : World) where
  open p use {Socket, indeterminate}

  pub small_replies :
      {n : Network p}
      → Reach p h (network p a b w v) n
      → AreSmall h n.requests
      → All (λ c. length c < 10 ^ 10) (replied p h n)
  small_replies {n} path (lt, lt') =
      let (t, e) =
        replies-IsPrefix p h default_message n.handled n.requests
          (Reach-IsPrefix p h a b w v path lt lt').0 in
      (All-split (λ c. length c < 10 ^ 10) (replied p h n) t
        (subst (λ cs. All (λ c. length c < 10 ^ 10) cs) (sym e) lt')).0

  -- A client without an exchange that is open has its answers.
  pub concluded :
      {n : Network p}
      → Reach p h (network p a b w v) n
      → n.client_end.pending ≡ []
      → length n.requests ≡ length n.received + 0
      → AreSmall h n.requests
      → HasConcluded h n
  concluded {n} path idle count (lt, lt') =
      let both = (Reach-Counts p h a b w v path).0 in
      let (handled, received) = Reach-IsPrefix p h a b w v path lt lt' in
      let replied_to =
        delivered p h client server n.client_intact n.server_intact n.client_end n.server_end n.down
          n.up _ n.requests n.received n.handled (framings (replied p h n)) both.0 both.1
          (framings-IsChunk indeterminate (replied p h n) (small_replies path (lt, lt')))
          (prefix_same refl) in
      (
        idle,
        IsPrefix-whole n.handled _ handled (
            omega (
              arith,
              length-IsPrefix n.received (framings (replied p h n)) replied_to,
              length-framings (replied p h n),
              length-replies h default_message n.handled,
              length-framings (contents n.requests),
              length-contents n.requests,
            )),
        IsPrefix-whole n.received _ received (
            omega (
              arith,
              length-framings (answers h default_message n.requests),
              length-answers h default_message n.requests,
            )),
      )
