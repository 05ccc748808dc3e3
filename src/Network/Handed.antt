-- ===== src/Network/Handed.antt =====
-- The calls of the handlers of the user that a completion makes.
use mathlib.Core.Path.{subst}
use micro_tcp.Common.{
  ℕ, false, List, [], ◌∷◌, Result, ok, throw, ◌≡◌, refl, Bytes, Bool-cases, inl, inr, if◌then◌else◌,
  All,
}
use micro_tcp.Platform.{Platform}
use micro_tcp.World.{World}
use micro_tcp.Message.{Message, prepare_header_buffer_write}
use micro_tcp.Handlers.{Handlers}
use micro_tcp.Session.{
  Role, server, client, Operation, async_handshake, async_read_header, async_read_content,
  async_write_header, async_write_content, async_shutdown, async_write_null, async_wait, Session,
}
use micro_tcp.Session.ServerSession
use micro_tcp.Session.ClientSession
use micro_tcp.Session.Completion.{
  complete, fill, handshake_done, read_header_done, read_content_done, write_header_done,
  write_content_done, shutdown_done, wait_done,
}
use micro_tcp.Network.{handed}

-- Two pairs of handlers give the same on a message.
abbrev pub Agree : {S : Type 0} → Role → Handlers → Handlers → Session S → Message → Type 0
Agree server h k s m = h.handle_request m s.write_buffer ≡ k.handle_request m s.write_buffer
Agree client h k s m = (w : World) → h.handle_response m w ≡ k.handle_response m w

-- What comes of the messages that are handed over.
abbrev pub Uses :
    {S : Type 0} → Role → Handlers → Session S → List Message → Result (Session S) → Type 0
Uses r h s [] x = Unit
Uses server h s (m ∷ ms) (ok t) =
    t.write_buffer ≡ prepare_header_buffer_write (h.handle_request m s.write_buffer)
Uses client h s (m ∷ ms) (ok t) = (w : World) × (t.world ≡ h.handle_response m w)
Uses r h s (m ∷ ms) (throw e) = ⊥

module _ (p : Platform) (h : Handlers) where
  open p use {Socket, ErrorCode}

  -- A read of a content that does not fail hands the message over.
  on_fine :
      (P : Message → Type 0) (n : ℕ) (ec : ErrorCode) (bytes : Bytes) (s : Session Socket)
      → p.failed ec ≡ false
      → All P (handed p (async_read_content n) ec bytes s)
      → P (record s.read_buffer { content_buffer = fill bytes s.read_buffer.content_buffer })
  on_fine P n ec bytes s fine x =
      (subst
        (λ b. All P (
          if b
          then []
          else (record s.read_buffer { content_buffer = fill bytes s.read_buffer.content_buffer })
            ∷ []))
        fine x).0

  complete-Agree :
      (k : Handlers) (r : Role) (op : Operation) (ec : ErrorCode) (bytes : Bytes)
      (s : Session Socket)
      → All (Agree r h k s) (handed p op ec bytes s)
      → complete p h r op ec bytes s ≡ complete p k r op ec bytes s
  unfolding complete handshake_done read_header_done read_content_done write_header_done
      write_content_done shutdown_done wait_done ServerSession.on_read_content
      ClientSession.on_read_content
  complete-Agree k server (async_handshake type) ec bytes s x = refl
  complete-Agree k client (async_handshake type) ec bytes s x = refl
  complete-Agree k r (async_read_header n) ec bytes s x = refl
  complete-Agree k server (async_read_content n) ec bytes s x = elim (Bool-cases (p.failed ec)) [
    | inl bad ↦ rw bad
    | inr fine ↦ rw (fine, (on_fine (Agree server h k s) n ec bytes s fine x))
  ]
  complete-Agree k client (async_read_content n) ec bytes s x = elim (Bool-cases (p.failed ec)) [
    | inl bad ↦ rw bad
    | inr fine ↦ rw (fine, (on_fine (Agree client h k s) n ec bytes s fine x _))
  ]
  complete-Agree k r (async_write_header b) ec bytes s x = refl
  complete-Agree k server (async_write_content b) ec bytes s x = refl
  complete-Agree k client (async_write_content b) ec bytes s x = refl
  complete-Agree k server async_shutdown ec bytes s x = refl
  complete-Agree k client async_shutdown ec bytes s x = refl
  complete-Agree k r async_write_null ec bytes s x = refl
  complete-Agree k r async_wait ec bytes s x = refl

  complete-Uses :
      (r : Role) (op : Operation) (ec : ErrorCode) (bytes : Bytes) (s : Session Socket)
      → Uses r h s (handed p op ec bytes s) (complete p h r op ec bytes s)
  unfolding complete read_content_done ServerSession.on_read_content ClientSession.on_read_content
  complete-Uses server (async_read_content n) ec bytes s = elim (Bool-cases (p.failed ec)) [
    | inl bad ↦ rw bad tt
    | inr fine ↦ rw fine refl
  ]
  complete-Uses client (async_read_content n) ec bytes s = elim (Bool-cases (p.failed ec)) [
    | inl bad ↦ rw bad tt
    | inr fine ↦ rw fine (_, refl)
  ]
  complete-Uses r (async_handshake type) ec bytes s = tt
  complete-Uses r (async_read_header n) ec bytes s = tt
  complete-Uses r (async_write_header b) ec bytes s = tt
  complete-Uses r (async_write_content b) ec bytes s = tt
  complete-Uses r async_shutdown ec bytes s = tt
  complete-Uses r async_write_null ec bytes s = tt
  complete-Uses r async_wait ec bytes s = tt

-- A completion of any operation of a session, with any error code and any bytes, in any state, for
-- two pairs of handlers that give the same on what it hands over, which is at most one message,
-- whose content it has read without an error: it ends in the same way with both pairs. If it hands
-- a message over it returns, and then the write buffer of a server is the framed response of the
-- request handler to that message and the write buffer before, and the world of a client is what
-- the response handler makes of a world with that message.
pub handed_lem :
    (p : Platform) (h k : Handlers) (r : Role) (op : Operation) (ec : p.ErrorCode) (bytes : Bytes)
    (s : Session p.Socket)
    → All (Agree r h k s) (handed p op ec bytes s)
    → (complete p h r op ec bytes s ≡ complete p k r op ec bytes s)
      × Uses r h s (handed p op ec bytes s) (complete p h r op ec bytes s)
handed_lem p h k r op ec bytes s same =
    (complete-Agree p h k r op ec bytes s same, complete-Uses p h r op ec bytes s)
