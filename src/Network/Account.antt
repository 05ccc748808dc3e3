-- ===== src/Network/Account.antt =====
-- What is known of the bytes at one end, before and after one of its operations has failed.
use mathlib.Core.Path.{subst}
use mathlib.Core.List.{IsPrefix}
use micro_tcp.Common.{Bool, true, false, List, [], ◌∷◌, ◌++◌, ◌≡◌, sym, ap, ◌∙◌, Bytes}
use micro_tcp.Message.{Message}
use micro_tcp.Session.{
  Role, Operation, async_handshake, async_read_header, async_read_content, async_write_header,
  async_write_content, async_shutdown, async_write_null, async_wait,
}
use micro_tcp.Network.Specification.{chunks}
use micro_tcp.Network.History.{HistoryOf, History, MayIdle}
use micro_tcp.Network.Carried.{Transfers, carried, carry-Transfers}
use micro_tcp.Network.Over.{HistoryOf-IsPrefix, prefix_same}
use micro_tcp.Network.{Stream, whole}

pub HistoryOf-Transfers :
    (r : Role) (read write : Message) (inn : Bytes) (o : Stream) (given : List Message)
    (expected : Bytes) (op : Operation)
    → HistoryOf r read write inn o given expected op
    → Transfers op
HistoryOf-Transfers r read write inn o given expected (async_handshake type) x = tt
HistoryOf-Transfers r read write inn o given expected (async_read_header n) x = tt
HistoryOf-Transfers r read write inn o given expected (async_read_content n) x = tt
HistoryOf-Transfers r read write inn o given expected (async_write_header b) x = tt
HistoryOf-Transfers r read write inn o given expected (async_write_content b) x = tt
HistoryOf-Transfers r read write inn o given expected async_shutdown x = x
HistoryOf-Transfers r read write inn o given expected async_write_null x = x
HistoryOf-Transfers r read write inn o given expected async_wait x = x

-- What is accounted for: every operation while the session is intact, and those of an exchange otherwise.
abbrev pub shown : Bool → List Operation → List Operation
shown true pending = pending
shown false pending = carried pending

-- What holds of the bytes with these operations pending.
abbrev pub Account :
    Bool
    → Role
    → Message
    → Message
    → Bytes
    → Stream
    → List Message
    → Bytes
    → List Operation
    → Type 0
Account true r read write inn o given expected [] =
    (inn ≡ chunks given) × (whole o ≡ expected) × (o.unsent ≡ []) × MayIdle r
Account false r read write inn o given expected [] =
    IsPrefix (chunks given) inn × IsPrefix (whole o) expected
Account intact r read write inn o given expected (op ∷ []) =
    HistoryOf r read write inn o given expected op
Account intact r read write inn o given expected (op ∷ op' ∷ ops) = ⊥

-- A session that is intact has the history of its operations.
pub Account-History :
    (r : Role) (read write : Message) (inn : Bytes) (o : Stream) (given : List Message)
    (expected : Bytes) (pending : List Operation)
    → Account true r read write inn o given expected pending
    → History r read write inn o given expected pending
Account-History r read write inn o given expected [] x = x
Account-History r read write inn o given expected (op ∷ []) x = x
Account-History r read write inn o given expected (op ∷ op' ∷ ops) x = x

pub History-Account :
    (r : Role) (read write : Message) (inn : Bytes) (o : Stream) (given : List Message)
    (expected : Bytes) (pending : List Operation)
    → History r read write inn o given expected pending
    → Account true r read write inn o given expected pending
History-Account r read write inn o given expected [] x = x
History-Account r read write inn o given expected (op ∷ []) x = x
History-Account r read write inn o given expected (op ∷ op' ∷ ops) x = x

-- The same of a session that is no more intact.
pub History-carried :
    (r : Role) (read write : Message) (inn : Bytes) (o : Stream) (given : List Message)
    (expected : Bytes) (pending : List Operation)
    → History r read write inn o given expected pending
    → Account false r read write inn o given expected (carried pending)
History-carried r read write inn o given expected [] (inn', out, none, idle) =
    (prefix_same (sym inn'), prefix_same out)
History-carried r read write inn o given expected (op ∷ []) x =
    subst (Account false r read write inn o given expected)
      (sym (carry-Transfers op [] (HistoryOf-Transfers r read write inn o given expected op x))) x
History-carried r read write inn o given expected (op ∷ op' ∷ ops) x = absurd x

-- In each case what was handed over was read, and what is written is what is promised.
pub Account-IsPrefix :
    (intact : Bool) (r : Role) (read write : Message) (inn : Bytes) (o : Stream)
    (given : List Message) (expected : Bytes) (ops : List Operation)
    → Account intact r read write inn o given expected ops
    → IsPrefix (chunks given) inn × IsPrefix (whole o) expected
Account-IsPrefix false r read write inn o given expected [] x = x
Account-IsPrefix true r read write inn o given expected [] (inn', out, none, idle) =
    (prefix_same (sym inn'), prefix_same out)
Account-IsPrefix true r read write inn o given expected (op ∷ []) x =
    HistoryOf-IsPrefix r read write inn o given expected op x
Account-IsPrefix false r read write inn o given expected (op ∷ []) x =
    HistoryOf-IsPrefix r read write inn o given expected op x
Account-IsPrefix true r read write inn o given expected (op ∷ op' ∷ ops) x = absurd x
Account-IsPrefix false r read write inn o given expected (op ∷ op' ∷ ops) x = absurd x

-- The bytes arrive, or the peer reads them.
abbrev pub Travels : Stream → Stream → Type 0
Travels o o' = (whole o' ≡ whole o) × (o.unsent ≡ [] → o'.unsent ≡ [])

HistoryOf-Travels :
    (r : Role) (read write : Message) (inn : Bytes) (o o' : Stream) (given : List Message)
    (expected : Bytes) (op : Operation)
    → Travels o o'
    → HistoryOf r read write inn o given expected op
    → HistoryOf r read write inn o' given expected op
HistoryOf-Travels r read write inn o o' given expected (async_handshake type) (e, f)
      (inn', out, none, fit) =
    (inn', e ∙ out, f none, fit)
HistoryOf-Travels r read write inn o o' given expected (async_read_header n) (e, f)
      (inn', out, none, fit) =
    (inn', e ∙ out, f none, fit)
HistoryOf-Travels r read write inn o o' given expected (async_read_content n) (e, f)
      (inn', out, none, fit) =
    (inn', e ∙ out, f none, fit)
HistoryOf-Travels r read write inn o o' given expected (async_write_header b) (e, f)
      (inn', out, a) =
    (inn', ap (λ x. x ++ write.content_buffer) e ∙ out, a)
HistoryOf-Travels r read write inn o o' given expected (async_write_content b) (e, f)
      (inn', out, a) =
    (inn', e ∙ out, a)
HistoryOf-Travels r read write inn o o' given expected async_shutdown ef x = absurd x
HistoryOf-Travels r read write inn o o' given expected async_write_null ef x = absurd x
HistoryOf-Travels r read write inn o o' given expected async_wait ef x = absurd x

pub Account-Travels :
    (intact : Bool) (r : Role) (read write : Message) (inn : Bytes) (o o' : Stream)
    (given : List Message) (expected : Bytes) (pending : List Operation)
    → Travels o o'
    → Account intact r read write inn o given expected pending
    → Account intact r read write inn o' given expected pending
Account-Travels false r read write inn o o' given expected [] (e, f) (reads, writes) =
    (reads, subst (λ b. IsPrefix b expected) (sym e) writes)
Account-Travels true r read write inn o o' given expected [] (e, f) (inn', out, none, fit) =
    (inn', e ∙ out, f none, fit)
Account-Travels true r read write inn o o' given expected (op ∷ []) ef x =
    HistoryOf-Travels r read write inn o o' given expected op ef x
Account-Travels false r read write inn o o' given expected (op ∷ []) ef x =
    HistoryOf-Travels r read write inn o o' given expected op ef x
Account-Travels true r read write inn o o' given expected (op ∷ op' ∷ ops) ef x = absurd x
Account-Travels false r read write inn o o' given expected (op ∷ op' ∷ ops) ef x = absurd x
