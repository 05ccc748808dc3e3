-- ===== src/Console/Writes.antt =====
-- Which files the program writes while it runs: test.out, where a client puts large responses, and no
-- other one.
use mathlib.Core.Path.{subst}
use text.Mathlib.Text.{◌==◌ as str_eq}
use micro_tcp.Common.{
  ℕ, List, Option, none, some, ◌≡◌, refl, ◌∙◌, String, Exception, Result, ok, throw, ◌>>=◌, false,
  true, Bool, Bool-cases, inl, inr,
}
use micro_tcp.World.{KeepsFile, World}
use micro_tcp.Platform.{Platform}
use micro_tcp.Session.Completion.{Completes}
use micro_tcp.Handlers.{example_handlers}
use micro_tcp.Session.{Role, Session, client, server}
use micro_tcp.Session.Writes
use micro_tcp.IoManager
use micro_tcp.Server
use micro_tcp.Server.{ServerOf, accepted, debug}
use micro_tcp.Client
use micro_tcp.Client.{resolved, connected}
use micro_tcp.Console.{
  Command, server_start, server_stop, server_set_address, server_set_port, client_connect,
  client_disconnect, client_send, client_send_file, status, quit, invalid, command, App, getline,
  change_port, show_status, dispatch, started, launch, server_of, client_of, with_server,
}
use micro_tcp.Console.System.{
  Happening, accepts, serves, resolves, connects, answers, ends, Reached, launches, happens,
  commands,
}
use micro_tcp.Server.Writes.{
  debug-files, accepted-KeepsFile, start-KeepsFile, set_address_text-KeepsFile,
}
use micro_tcp.Client.Writes.{
  resolved-KeepsFile, connected-KeepsFile, disconnect-KeepsFile, send-KeepsFile,
  send_file-KeepsFile,
}

module _ (p : Platform) (path : String) (other : str_eq path "test.out" ≡ false) where
  open p use {Socket, ErrorCode}

  Completes-KeepsFile :
      (r : Role) (w : World) (x y : Session Socket)
      → Completes p example_handlers r w x y
      → KeepsFile path w y.world
  Completes-KeepsFile r w x y (first, rest, op, ec, bytes, e, g) =
      subst (Writes.Returns p path other w) g (Writes.complete-Returns p path other r op ec bytes _)

  Happening-KeepsFile : {a b : App p} → Happening p a b → KeepsFile path a.world b.world
  Happening-KeepsFile {a} (accepts n ec sock e) =
      accepted-KeepsFile p path ec sock (record (server_of p a) { accepting = n })
  Happening-KeepsFile {a} (serves before after x y m c) = Completes-KeepsFile server a.world x y c
  Happening-KeepsFile {a} (resolves n ec e) = resolved-KeepsFile p path other ec (client_of p a)
  Happening-KeepsFile {a} (connects n ec sock e) =
      connected-KeepsFile p path other ec sock (client_of p a)
  Happening-KeepsFile {a} (answers x y m c) = Completes-KeepsFile client a.world x y c
  Happening-KeepsFile {a} (ends before after x y m c) = Completes-KeepsFile client a.world x y c

  -- What a command leaves behind, if it returns.
  abbrev Leaves : World → Result (List String × App p) → Type 0
  Leaves w (ok (ls, b)) = KeepsFile path w b.world
  Leaves w (throw e) = Unit

  Leaves-server_stop :
      (ls : List String) (a : App p)
      → Leaves a.world (Server.stop p (server_of p a) >>= λ s. ok (ls, with_server p s a))
  unfolding Server.stop
  Leaves-server_stop ls a = elim (Bool-cases (p.failed (p.close_acceptor a.server.acceptor).0)) [
    | inl e ↦ rw e tt
    | inr e ↦ rw e refl
  ]

  Leaves-set_port :
      (ls : List String) (a : App p) (k : ℕ) (o : Result Bool)
      → Leaves a.world (
          ((o >>= λ used. ok (Server.change_port p k (server_of p a) used)) >>= λ x.
          ok (with_server p x.1 a))
          >>= λ b. ok (ls, b))
  Leaves-set_port ls a k (ok true) = debug-files p path _ _ a.world
  Leaves-set_port ls a k (ok false) = debug-files p path _ _ a.world
  Leaves-set_port ls a k (throw e) = tt

  Leaves-change_port :
      (o : Option ℕ) (ls : List String) (a : App p)
      → Leaves a.world (change_port p o a >>= λ b. ok (ls, b))
  unfolding change_port Server.set_port
  Leaves-change_port none ls a = tt
  Leaves-change_port (some k) ls a = elim (Bool-cases (p.acceptor_is_open a.server.acceptor)) [
    | inl e ↦ rw e (debug-files p path _ _ a.world)
    | inr e ↦ rw e (Leaves-set_port ls a k (Server.port_in_use p k (server_of p a)))
  ]

  dispatch-Leaves :
      (address : String) (port : ℕ) (c : Command) (ls : List String) (a : App p)
      → Leaves a.world (dispatch p address port c ls a)
  unfolding dispatch show_status Client.connect
  dispatch-Leaves address port server_start ls a = start-KeepsFile p path (server_of p a)
  dispatch-Leaves address port server_stop ls a = Leaves-server_stop ls a
  dispatch-Leaves address port server_set_address ls a =
      set_address_text-KeepsFile p path (getline ls).0 _
  dispatch-Leaves address port server_set_port ls a =
      Leaves-change_port (p.to_port (getline ls).0) (getline ls).1 _
  dispatch-Leaves address port client_connect ls a = refl
  dispatch-Leaves address port client_disconnect ls a =
      disconnect-KeepsFile p path other (client_of p a)
  dispatch-Leaves address port client_send ls a = send-KeepsFile p path other _ _
  dispatch-Leaves address port client_send_file ls a =
      send_file-KeepsFile p path other (getline ls).0 _
  dispatch-Leaves address port status ls a =
      elim (Bool-cases (Client.is_connected p (client_of p a))) [
        | inl e ↦ rw e refl
        | inr e ↦ rw e refl
      ]
  dispatch-Leaves address port quit ls a = refl
  dispatch-Leaves address port invalid ls a = refl

  abbrev Launched : World → Result (App p) → Type 0
  Launched w (ok a) = KeepsFile path w a.world
  Launched w (throw e) = Unit

  Launched-with :
      (w : World) (o : Result (Option Exception × IoManager.IoManager)) (s : ServerOf p)
      → Launched w (
          o >>= λ x. started p x >>= λ m.
          ok (record { server = s; client = Client.client w; io_manager = m; world = w }))
  unfolding started
  Launched-with w (ok (none, m)) s = refl
  Launched-with w (ok (some e, m)) s = tt
  Launched-with w (throw e) s = tt

  launch-Launched :
      (r : IoManager.Resources) (address : String) (port hardware_concurrency : ℕ) (w : World)
      → Launched w (launch p r address port hardware_concurrency w)
  unfolding launch Server.server_at
  launch-Launched r address port hardware_concurrency w =
      elim (Bool-cases (p.failed (p.from_string address).0)) [
        | inl bad ↦ rw bad tt
        | inr fine ↦ rw fine (Launched-with w _ _)
      ]

-- While the whole program runs, whatever commands are entered, and whatever connections are made and
-- accepted and operations completed between them, in whatever order and with whatever error codes and
-- bytes, as long as no exception ends it: every file but test.out is as it was when the program
-- started.
pub Reached-files :
    (p : Platform) (r : IoManager.Resources) (path address : String) (port hardware_concurrency : ℕ)
    (input : List String) (w : World) {ls : List String} {a : App p}
    → str_eq path "test.out" ≡ false
    → Reached p r address port hardware_concurrency input w ls a
    → a.world.files path ≡ w.files path
Reached-files p r path address port hardware_concurrency input w other (launches e) =
    subst (Launched p path other w) e
      (launch-Launched p path other r address port hardware_concurrency w)
Reached-files p r path address port hardware_concurrency input w other (happens run ev) =
    Happening-KeepsFile p path other ev
    ∙ Reached-files p r path address port hardware_concurrency input w other run
Reached-files p r path address port hardware_concurrency input w other
      (commands {ls} {rest} {a} {b} run no_quit e) =
    subst (Leaves p path other a.world) e
      (dispatch-Leaves p path other address port (command (getline ls).0) (getline ls).1 a)
    ∙ Reached-files p r path address port hardware_concurrency input w other run
