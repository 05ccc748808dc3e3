-- ===== src/Network/Ends.antt =====
-- What holds at each end, whichever of its operations complete and fail.
use mathlib.Core.Path.{subst}
use micro_tcp.Common.{
  Bool, true, false, List, [], ◌∷◌, ◌++◌, append-nil, Result, ok, ◌≡◌, ◌⊎◌, refl, sym, ◌∙◌, Bytes,
  All, All-append, if◌then◌else◌, Bool-cases, inl, inr,
}
use micro_tcp.Platform.{Platform}
use micro_tcp.World.{World}
use micro_tcp.Message.{Message}
use micro_tcp.Handlers.{Handlers}
use micro_tcp.Session.{
  Role, Operation, async_handshake, async_read_header, async_read_content, async_write_header,
  async_write_content, async_shutdown, async_write_null, async_wait, Session,
}
use micro_tcp.Session.Completion.{complete}
use micro_tcp.Session.Invariant.{
  IsOrderly, Allows, AllowsOne, complete-IsOrderly, length-fill, content_length_same,
}
use micro_tcp.Network.Specification.{IsChunk}
use micro_tcp.Network.History.{
  HistoryOf, History, Gives, handshake-Gives, read_header-Gives, write_header-Gives,
  write_content-Gives,
}
use micro_tcp.Network.Handing.{promised, read_message, read_content-Gives}
use micro_tcp.Network.{Stream, behind, written, Moves, handed}
use micro_tcp.Network.Carried.{Closes}
use micro_tcp.Network.Account.{Account, shown, Account-History}

module _ (p : Platform) (h : Handlers) (r : Role) where
  open p use {Socket, ErrorCode, indeterminate}

  -- At most one operation of an exchange is pending, which fits the buffers; the messages that were handed over
  -- are whole; and what was read and is written are these messages and what is promised.
  abbrev pub Holds : Bool → Session Socket → Bytes → Stream → List Message → List Message → Type 0
  Holds intact s inn o requests given =
      AllowsOne p r s.read_buffer s.write_buffer (shown intact s.pending)
      × All (IsChunk indeterminate) given
      × Account intact r s.read_buffer s.write_buffer inn o given (promised h r requests given)
          (shown intact s.pending)

  -- What is known of a session that is intact.
  pub Holds-History :
      {intact : Bool} (s : Session Socket) (inn : Bytes) (o : Stream)
      (requests given : List Message)
      → intact ≡ true
      → Holds intact s inn o requests given
      → IsOrderly p r s
        × History r s.read_buffer s.write_buffer inn o given (promised h r requests given) s.pending
  Holds-History s inn o requests given e x =
      let (orderly, _, account) = subst (λ b. Holds b s inn o requests given) e x in
      (
        orderly,
        Account-History r s.read_buffer s.write_buffer inn o given (promised h r requests given)
            s.pending account,
      )

module _ (p : Platform) (h : Handlers) (r : Role) (ec : p.ErrorCode) (bytes : Bytes) (w : World)
    (s : Session p.Socket) (i o i' o' : Stream) (requests given : List Message) where
  open p use {Socket, ErrorCode, indeterminate, failed}

  abbrev pub Done : Operation → Result (Session Socket)
  Done op = complete p h r op ec bytes (record s { pending = []; world = w })

  abbrev Leaves : List Message → Result (Session Socket) → Type 0
  Leaves given' x = Gives i' o' r given' (promised h r requests given') x

  -- The message that is handed over is whole.
  handed-IsChunk :
      (op : Operation)
      → Allows p r s.read_buffer s.write_buffer op
      → All (IsChunk indeterminate) (handed p op ec bytes s)
  handed-IsChunk (async_read_content n) (lh, lc, announced) = elim (Bool-cases (failed ec)) [
    | inl bad ↦ rw bad tt
    | inr fine ↦ rw fine (
      (
        lh,
        content_length_same p h indeterminate s.read_buffer _
            ∙ announced
            ∙ sym lc
            ∙ sym (length-fill p h bytes s.read_buffer.content_buffer),
      ),
      tt,
    )
  ]
  handed-IsChunk (async_handshake type) a = tt
  handed-IsChunk (async_read_header n) a = tt
  handed-IsChunk (async_write_header b) a = tt
  handed-IsChunk (async_write_content b) a = tt
  handed-IsChunk async_shutdown a = tt
  handed-IsChunk async_write_null a = tt
  handed-IsChunk async_wait a = tt

  unhanded : (x : Result (Session Socket)) → Leaves given x → Leaves (given ++ []) x
  unhanded x l = subst (λ g. Leaves g x) (sym (append-nil given)) l

  -- An operation that does not fail.
  fine-Leaves :
      (op : Operation)
      → failed ec ≡ false
      → Allows p r s.read_buffer s.write_buffer op
      → HistoryOf r s.read_buffer s.write_buffer i.consumed o given (promised h r requests given) op
      → Moves false op bytes i o i' o'
      → Leaves (given ++ handed p op ec bytes s) (Done op)
  fine-Leaves (async_handshake type) fine a x m =
      unhanded _ (handshake-Gives p h ec fine s w i o i' o' given _ r type bytes x m)
  fine-Leaves (async_read_header n) fine a x m =
      unhanded _ (read_header-Gives p h ec fine s w i o i' o' given _ r n bytes a.1 x m)
  fine-Leaves (async_read_content n) fine a x m =
      subst
        (λ b.
          Leaves
            (given
              ++ (if b
                  then []
                  else read_message p h ec fine s w i o i' o' requests given bytes ∷ []))
            (Done (async_read_content n)))
        (sym fine) (read_content-Gives p h ec fine s w i o i' o' requests given r n bytes a.1 x m)
  fine-Leaves (async_write_header b) fine a x m =
      unhanded _ (write_header-Gives p h ec fine s w i o i' o' given _ r b bytes a.1 x m)
  fine-Leaves (async_write_content b) fine a x m =
      unhanded _ (write_content-Gives p h ec fine s w i o i' o' given _ r b bytes x m)
  fine-Leaves async_shutdown fine a x m = absurd x
  fine-Leaves async_write_null fine a x m = absurd x
  fine-Leaves async_wait fine a x m = absurd x

  -- Nothing is handed over.
  pub handed_none : (op : Operation) → (failed ec ≡ true) ⊎ Closes op → handed p op ec bytes s ≡ []
  handed_none (async_read_content n) (inl bad) = rw bad
  handed_none (async_read_content n) (inr over) = absurd over
  handed_none (async_handshake type) x = refl
  handed_none (async_read_header n) x = refl
  handed_none (async_write_header b) x = refl
  handed_none (async_write_content b) x = refl
  handed_none async_shutdown x = refl
  handed_none async_write_null x = refl
  handed_none async_wait x = refl

  -- What a completion that transfers leaves behind.
  pub fine-Done :
      (op : Operation) (t : Session Socket)
      → failed ec ≡ false
      → All (IsChunk indeterminate) given
      → Allows p r s.read_buffer s.write_buffer op
      → HistoryOf r s.read_buffer s.write_buffer i.consumed o given (promised h r requests given) op
      → Moves (failed ec) op bytes i o i' o'
      → Done op ≡ ok t
      → let given' = given ++ handed p op ec bytes s in
        IsOrderly p r t
        × All (IsChunk indeterminate) given'
        × History r t.read_buffer t.write_buffer i'.consumed
            (behind o' (written t.pending))
            given'
            (promised h r requests given')
            t.pending
  fine-Done op t e chunked a x m g = (
    complete-IsOrderly p h r op ec bytes (record s { world = w }) t a g,
    All-append (IsChunk indeterminate) given _ (chunked, handed-IsChunk op a),
    subst (Leaves (given ++ handed p op ec bytes s)) g
        (fine-Leaves op e a x (subst (λ b. Moves b op bytes i o i' o') e m)),
  )
