-- ===== src/Console/Life.antt =====
-- The whole program between its launch and the command `quit`.
use mathlib.Core.Path.{subst}
use micro_tcp.Common.{
  ℕ, List, [], ◌∷◌, some, ◌≡◌, refl, String, Result, ok, throw, ◌>>=◌, false, Bool, Bool-cases, inl,
  inr, All, Exception, Option, none,
}
use micro_tcp.World.{World, lit}
use micro_tcp.Platform.{Platform}
use micro_tcp.Handlers.{example_handlers}
use micro_tcp.Session.{server}
use micro_tcp.Session.Invariant.{IsOrderly}
use micro_tcp.IoManager
use micro_tcp.IoManager.{Resources, IoManager, io_manager, default_num_threads}
use micro_tcp.IoManager.Lifecycle.{Returns}
use micro_tcp.IoManager.Lifecycle.Cuts.{HasStarted, start_new}
use micro_tcp.Server
use micro_tcp.Server.{ServerOf, accepted}
use micro_tcp.Server.Running.{All-IsOrderly}
use micro_tcp.Server.Serving.{
  IsServing, start-IsServing, stop-IsServing, set_address_text-IsServing, set_port-IsServing,
}
use micro_tcp.Client
use micro_tcp.Client.{release, resolved, connected}
use micro_tcp.Console.{
  Command, server_start, server_stop, server_set_address, server_set_port, client_connect,
  client_disconnect, client_send, client_send_file, status, quit, invalid, command, App, getline,
  change_port, show_status, dispatch, started, launch, server_of, client_of, with_server, say,
}
use micro_tcp.Console.Ending.{
  Phase, Ending, Holds, GoesOn, Ending-Holds, Holds-GoesOn, Holds-IsServing,
}
use micro_tcp.Console.System.{
  Reached, launches, happens, commands, IsRunning, with_server-IsRunning, with_client-IsRunning,
  Happening-IsRunning,
}

module _ (p : Platform) where
  open p use {Socket, ErrorCode}

  say-IsRunning : (a : App p) (w : World) → IsRunning p a → IsRunning p (record a { world = w })
  say-IsRunning a w r = record { managed = r.managed; active = r.active; serving = r.serving }

  -- What a command leaves behind.
  abbrev pub Runs : Result (List String × App p) → Type 0
  Runs (ok (ls, b)) = IsRunning p b
  Runs (throw e) = Unit

  Runs-bind :
      {A : Type 0} (o : Result A) (f : A → Result (List String × App p))
      → ((x : A) → o ≡ ok x → Runs (f x))
      → Runs (o >>= f)
  Runs-bind (ok x) f h = h x refl
  Runs-bind (throw e) f h = tt

  Runs-change_port :
      (o : Option ℕ) (ls : List String) (a : App p)
      → IsRunning p a
      → Runs (change_port p o a >>= λ b. ok (ls, b))
  unfolding change_port
  Runs-change_port none ls a r = tt
  Runs-change_port (some k) ls a r = changed (Server.set_port p k (server_of p a)) refl
    where
      changed :
          (o : Result (Bool × ServerOf p))
          → Server.set_port p k (server_of p a) ≡ o
          → Runs ((o >>= λ x. ok (with_server p x.1 a)) >>= λ b. ok (ls, b))
      changed (ok (b, s)) e =
          with_server-IsRunning p a s
            (set_port-IsServing p example_handlers k (server_of p a) s b e r.serving) r
      changed (throw e) e' = tt

  pub dispatch-Runs :
      (address : String) (port : ℕ) (c : Command) (ls : List String) (a : App p)
      → IsRunning p a
      → Runs (dispatch p address port c ls a)
  unfolding dispatch show_status
  dispatch-Runs address port server_start ls a r =
      with_server-IsRunning p a (Server.start p (server_of p a))
        (start-IsServing p example_handlers (server_of p a) r.serving) r
  dispatch-Runs address port server_stop ls a r =
      Runs-bind (Server.stop p (server_of p a)) (λ s. ok (ls, with_server p s a))
        (λ s e.
          with_server-IsRunning p a s
            (stop-IsServing p example_handlers (server_of p a) s e r.serving) r)
  dispatch-Runs address port server_set_address ls a r =
      let text = (getline ls).0 in
      with_server-IsRunning p a (Server.set_address_text p text _).1
        (set_address_text-IsServing p example_handlers text _ r.serving) r
  dispatch-Runs address port server_set_port ls a r =
      Runs-change_port (p.to_port (getline ls).0) (getline ls).1
        (say p (lit "Enter a port (0-65535):" ∷ []) a) (say-IsRunning a _ r)
  dispatch-Runs address port client_connect ls a r = with_client-IsRunning p a _ r
  dispatch-Runs address port client_disconnect ls a r = with_client-IsRunning p a _ r
  dispatch-Runs address port client_send ls a r = with_client-IsRunning p a _ r
  dispatch-Runs address port client_send_file ls a r = with_client-IsRunning p a _ r
  dispatch-Runs address port status ls a r =
      elim (Bool-cases (Client.is_connected p (client_of p a))) [
        | inl e ↦ rw e (say-IsRunning a _ r)
        | inr e ↦ rw e (say-IsRunning a _ r)
      ]
  dispatch-Runs address port quit ls a r = say-IsRunning a _ r
  dispatch-Runs address port invalid ls a r = say-IsRunning a _ r

  abbrev Launched : Result (App p) → Type 0
  Launched (ok a) = IsRunning p a
  Launched (throw e) = Unit

  Launched-started :
      (n : ℕ) (s : ServerOf p) (w : World) (o : Result (Option Exception × IoManager))
      → IsServing p example_handlers s
      → Returns (HasStarted n) o
      → Launched (
          o >>= λ x. started p x >>= λ m.
          ok (record { server = s; client = Client.client w; io_manager = m; world = w }))
  unfolding started
  Launched-started n s w (ok (none, m)) v (_, managed, active, _) = record {
    managed = managed;
    active = active;
    serving = v;
  }
  Launched-started n s w (ok (some e, m)) v h = tt
  Launched-started n s w (throw e) v h = tt

  launch-Launched :
      (r : Resources) (address : String) (port hardware_concurrency : ℕ) (w : World)
      → Launched (launch p r address port hardware_concurrency w)
  unfolding launch Server.server_at Server.server
  launch-Launched r address port hardware_concurrency w =
      let n = default_num_threads hardware_concurrency in
      elim (Bool-cases (p.failed (p.from_string address).0)) [
        | inl bad ↦ rw bad tt
        | inr fine ↦ rw fine (
            Launched-started n _ w (IoManager.start r n io_manager)
              (refl, tt, inl p.new_acceptor_closed) (start_new r n))
      ]

  pub Reached-IsRunning :
      (r : Resources) (address : String) (port hardware_concurrency : ℕ) (input : List String)
      (w : World) {ls : List String} {a : App p}
      → Reached p r address port hardware_concurrency input w ls a
      → IsRunning p a
  Reached-IsRunning r address port hardware_concurrency input w (launches {a} e) =
      subst Launched e (launch-Launched r address port hardware_concurrency w)
  Reached-IsRunning r address port hardware_concurrency input w (happens path ev) =
      Happening-IsRunning p ev (Reached-IsRunning r address port hardware_concurrency input w path)
  Reached-IsRunning r address port hardware_concurrency input w
        (commands {ls} {rest} {a} {b} path no_quit e) =
      subst Runs e (
        dispatch-Runs address port (command (getline ls).0) (getline ls).1 a
          (Reached-IsRunning r address port hardware_concurrency input w path))

-- The whole program while it runs, if an acceptor can always be closed: whatever commands are entered,
-- and whatever connections are made and accepted and operations completed between them, in whatever
-- order and with whatever error codes and bytes, as long as no exception ends the program. Until quit,
-- the threads of the manager run, and an accept is pending while the server listens. When quit is
-- entered, operations may go on completing between the three calls at the end of main, and each of
-- these calls returns: behind the second the server does not listen, behind the third the manager is
-- inactive with its threads joined, and then the objects are destroyed without an exception or a call
-- of std::terminate. At all these points every session of the server is in a state that a server
-- session reaches by itself, and orderly.
pub Reached-lem :
    (p : Platform) (r : Resources) (address : String) (port hardware_concurrency : ℕ)
    (input : List String) (w : World) {ls : List String} {a : App p} {ph : Phase} {b : App p}
    → ((c : p.Acceptor) → p.failed (p.close_acceptor c).0 ≡ false)
    → Reached p r address port hardware_concurrency input w ls a
    → Ending p a ph b
    → IsRunning p a
      × Holds p ph b
      × GoesOn p ph b
      × IsServing p example_handlers b.server
      × All (IsOrderly p server) b.server.sessions
Reached-lem p r address port hardware_concurrency input w {ph = ph} {b = b} closes path end =
    let running = Reached-IsRunning p r address port hardware_concurrency input w path in
    let h = Ending-Holds p closes running end in
    let v = Holds-IsServing p ph b h in
    (running, h, Holds-GoesOn p ph b closes h, v, All-IsOrderly p example_handlers _ v.1)
