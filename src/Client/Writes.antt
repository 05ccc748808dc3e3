-- ===== src/Client/Writes.antt =====
-- The operations of the client change no file: the responses come to its sessions.
use text.Mathlib.Text.{◌==◌ as str_eq}
use micro_tcp.Common.{
  Option, none, some, ◌≡◌, refl, ◌∙◌, ap, String, false, true, Bool, Bool-cases, inl, inr,
}
use micro_tcp.World.{KeepsFile, World}
use micro_tcp.Platform.{Platform}
use micro_tcp.Files.{read_file, read_file-files}
use micro_tcp.Message.{Message, default_message}
use micro_tcp.Session.{Role, Session, client, server}
use micro_tcp.Session.ClientSession
use micro_tcp.Session
use micro_tcp.Session.Writes
use micro_tcp.Client
use micro_tcp.Client.{resolved, connected}

module _ (p : Platform) (path : String) (other : str_eq path "test.out" ≡ false) where
  open p use {Socket, ErrorCode}

  pub resolved-KeepsFile :
      (ec : ErrorCode) (c : Client.Client Socket) → KeepsFile path c.world (resolved p ec c).world
  unfolding resolved
  resolved-KeepsFile ec c = elim (Bool-cases (p.failed ec)) [
    | inl e ↦ rw e refl
    | inr e ↦ rw e refl
  ]

  pub connected-KeepsFile :
      (ec : ErrorCode) (sock : Socket) (c : Client.Client Socket)
      → KeepsFile path c.world (connected p ec sock c).world
  unfolding connected
  connected-KeepsFile ec sock c = elim (Bool-cases (p.failed ec)) [
    | inl e ↦ elim (Bool-cases (p.is_connection_aborted ec)) [
      | inl e' ↦ rw (e, e') refl
      | inr e' ↦ rw (e, e') refl
    ]
    | inr e ↦ rw e refl
  ]

  -- A call on the session that the client holds.
  pub on_held-KeepsFile :
      (f : Session Socket → Session Socket) (o : Option (Session Socket)) (c : Client.Client Socket)
      → ((s : Session Socket) → KeepsFile path s.world (f s).world)
      → KeepsFile path c.world (Client.on_held p f o c).world
  on_held-KeepsFile f none c k = refl
  on_held-KeepsFile f (some s) c k = k _

  pub disconnect-KeepsFile :
      (c : Client.Client Socket) → KeepsFile path c.world (Client.disconnect p c).world
  unfolding Client.disconnect
  disconnect-KeepsFile c = elim (Bool-cases (Client.is_connected p c)) [
    | inl e ↦ rw e (
        on_held-KeepsFile (Session.stop p) c.active_session c
          (λ s. Writes.Keeps-stop p path other s.world s refl))
    | inr e ↦ rw e refl
  ]

  pub send-KeepsFile :
      (m : Message) (c : Client.Client Socket) → KeepsFile path c.world (Client.send p m c).1.world
  unfolding Client.send ClientSession.send
  send-KeepsFile m c = elim (Bool-cases (Client.is_connected p c)) [
    | inl e ↦ rw e (on_held-KeepsFile (ClientSession.send m) c.active_session c (λ s. refl))
    | inr e ↦ rw e refl
  ]

  pub send_file-KeepsFile :
      (file : String) (c : Client.Client Socket)
      → KeepsFile path c.world (Client.send_file p file c).1.world
  unfolding Client.send_file
  send_file-KeepsFile file c =
      sent (read_file file default_message c.world)
        (ap (λ g. g path) (read_file-files file default_message c.world))
    where
      sent :
          (x : Bool × Message × World)
          → KeepsFile path c.world x.2
          → KeepsFile path c.world (Client.send_read p c x).1.world
      sent (true, m, w) k = send-KeepsFile m (record c { world = w }) ∙ k
      sent (false, m, w) k = k
