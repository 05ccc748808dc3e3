-- ===== src/Network/Phases.antt =====
-- How far a session is in its exchange: the operation that is pending, and the one behind it.
use micro_tcp.Common.{
  ℕ, ◌+◌, ◌*◌, false, List, [], ◌∷◌, Result, throw, ok, ◌>>=◌, ◌≡◌, refl, Bytes, length,
}
use micro_tcp.Platform.{Platform}
use micro_tcp.World.{World}
use micro_tcp.Message.{Message}
use micro_tcp.Handlers.{Handlers}
use micro_tcp.Session.{
  Role, server, client, Operation, async_handshake, async_read_header, async_read_content,
  async_write_header, async_write_content, async_shutdown, async_write_null, async_wait, Session,
}
use micro_tcp.Session.ServerSession
use micro_tcp.Session.ClientSession
use micro_tcp.Session.Completion.{
  complete, handshake_done, read_header_done, read_content_done, write_header_done,
  write_content_done,
}
use micro_tcp.Network.Carried.{Transfers}
use micro_tcp.Network.{handed}

-- The completions that are left until a client has its response, and until a server has read a request.
abbrev pub left : Role → List Operation → ℕ
left client (async_handshake type ∷ ops) = 1
left client (async_write_header b ∷ ops) = 4
left client (async_write_content b ∷ ops) = 3
left client (async_read_header n ∷ ops) = 2
left client (async_read_content n ∷ ops) = 1
left server (async_handshake type ∷ ops) = 2
left server (async_write_header b ∷ ops) = 3
left server (async_write_content b ∷ ops) = 2
left server (async_read_header n ∷ ops) = 1
left _ _ = 0

-- The exchanges that a client has begun and not concluded.
abbrev pub open_exchanges : Role → List Operation → ℕ
open_exchanges server ops = 0
open_exchanges client [] = 0
open_exchanges client (async_handshake type ∷ ops) = 0
open_exchanges client (_ ∷ ops) = 1

abbrev pub concluded : Role → ℕ → ℕ
concluded server k = 0
concluded client k = k

-- The completions that a server makes for a request.
abbrev pub for_handed : Role → ℕ → ℕ
for_handed server k = 4 * k
for_handed client k = 0

module _ (p : Platform) (h : Handlers) (ec : p.ErrorCode) (fine : p.failed ec ≡ false)
    (s : Session p.Socket) (w : World) (bytes : Bytes) where
  open p use {Socket, indeterminate}

  -- A completion without an error is one less; one that hands a message to a client concludes an exchange.
  abbrev pub Advances : Role → Operation → Result (Session Socket) → Type 0
  Advances r op (ok t) =
      (left r t.pending + 1 ≡ left r (op ∷ []) + for_handed r (length (handed p op ec bytes s)))
      × (open_exchanges r t.pending + concluded r (length (handed p op ec bytes s))
          ≡ open_exchanges r (op ∷ []))
  Advances r op (throw e) = Unit

  Advances-read :
      (r : Role) (n : ℕ) (x : Result Message) (f : Message → Session Socket)
      → ((m : Message) → Advances r (async_read_header n) (ok (f m)))
      → Advances r (async_read_header n) (x >>= λ m. ok (f m))
  Advances-read r n (ok m) f k = k m
  Advances-read r n (throw e) f k = tt

  pub complete-Advances :
      (r : Role) (op : Operation)
      → Transfers op
      → Advances r op (complete p h r op ec bytes (record s { pending = []; world = w }))
  unfolding complete handshake_done read_header_done read_content_done write_header_done
      write_content_done ClientSession.on_secure_handshake ClientSession.on_read_header
      ClientSession.on_read_content ClientSession.on_write_header ClientSession.on_write_content
      ServerSession.on_secure_handshake ServerSession.on_read_header ServerSession.on_read_content
      ServerSession.on_write_header ServerSession.on_write_content
  complete-Advances client (async_handshake type) x = rw fine (refl, refl)
  complete-Advances client (async_read_header n) x =
      rw fine (Advances-read client n _ _ λ m. (refl, refl))
  complete-Advances client (async_read_content n) x = rw fine (refl, refl)
  complete-Advances client (async_write_header b) x = rw fine (refl, refl)
  complete-Advances client (async_write_content b) x = rw fine (refl, refl)
  complete-Advances server (async_handshake type) x = rw fine (refl, refl)
  complete-Advances server (async_read_header n) x =
      rw fine (Advances-read server n _ _ λ m. (refl, refl))
  complete-Advances server (async_read_content n) x = rw fine (refl, refl)
  complete-Advances server (async_write_header b) x = rw fine (refl, refl)
  complete-Advances server (async_write_content b) x = rw fine (refl, refl)
  complete-Advances r async_shutdown x = absurd x
  complete-Advances r async_write_null x = absurd x
  complete-Advances r async_wait x = absurd x
