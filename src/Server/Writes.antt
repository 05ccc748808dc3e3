-- ===== src/Server/Writes.antt =====
-- The operations of the server change no file.
use micro_tcp.Common.{
  List, refl, ◌∙◌, String, false, true, Bool, Bool-cases, inl, inr, if◌then◌else◌, not,
}
use micro_tcp.World.{KeepsFile, World, Piece, is_empty}
use micro_tcp.Platform.{Platform}
use micro_tcp.Server
use micro_tcp.Server.{ServerOf, accepted, debug}

module _ (p : Platform) (path : String) where
  open p use {Socket, ErrorCode}

  pub debug-files : (msg ec : List Piece) (w : World) → KeepsFile path w (debug msg ec w)
  unfolding debug
  debug-files msg ec w = elim (Bool-cases (is_empty ec)) [ inl e ↦ rw e refl | inr e ↦ rw e refl ]

  pub KeepsFile-if :
      (w : World) (b : Bool) (s t : ServerOf p)
      → KeepsFile path w s.world
      → KeepsFile path w t.world
      → KeepsFile path w (if b then s else t).world
  KeepsFile-if w true s t x y = x
  KeepsFile-if w false s t x y = y

  pub accepted-KeepsFile :
      (ec : ErrorCode) (sock : Socket) (s : ServerOf p)
      → KeepsFile path s.world (accepted p ec sock s).world
  unfolding accepted
  accepted-KeepsFile ec sock s =
      KeepsFile-if s.world (not (p.acceptor_is_open s.acceptor)) _ _ (debug-files _ _ s.world) (
        KeepsFile-if s.world (not (p.failed ec)) _ _ refl (
          KeepsFile-if s.world (not (p.is_operation_aborted ec)) _ _ (debug-files _ _ s.world)
            refl))

  pub attempt-KeepsFile :
      (f : p.Acceptor → ErrorCode × p.Acceptor) (what : String) (w : World) (s : ServerOf p)
      → KeepsFile path w s.world
      → KeepsFile path w (Server.attempt p f what s).world
  unfolding Server.attempt
  attempt-KeepsFile f what w s k =
      KeepsFile-if w (p.failed (f s.acceptor).0) _ _ (debug-files _ _ s.world ∙ k) k

  pub start-KeepsFile : (s : ServerOf p) → KeepsFile path s.world (Server.start p s).world
  unfolding Server.start Server.start_listening
  start-KeepsFile s =
      KeepsFile-if s.world (not (p.acceptor_is_open s.acceptor)) _ s
        (debug-files _ _ _
          ∙ attempt-KeepsFile _ _ s.world _ (
              attempt-KeepsFile _ _ s.world _
                (attempt-KeepsFile _ _ s.world _ (attempt-KeepsFile _ _ s.world s refl))))
        refl

  pub set_address-KeepsFile :
      (a : p.Address) (s : ServerOf p) → KeepsFile path s.world (Server.set_address p a s).1.world
  unfolding Server.set_address
  set_address-KeepsFile a s = elim (Bool-cases (p.acceptor_is_open s.acceptor)) [
    | inl e ↦ rw e (debug-files _ _ s.world)
    | inr e ↦ rw e (debug-files _ _ s.world)
  ]

  pub set_address_text-KeepsFile :
      (text : String) (s : ServerOf p)
      → KeepsFile path s.world (Server.set_address_text p text s).1.world
  unfolding Server.set_address_text
  set_address_text-KeepsFile text s = elim (Bool-cases (p.failed (p.from_string text).0)) [
    | inl bad ↦ rw bad refl
    | inr fine ↦ rw fine (set_address-KeepsFile (p.from_string text).1 s)
  ]
