-- ===== src/Console/System.antt =====
-- The whole program while it runs: the commands of the console, and between them what Boost.Asio
-- completes, in any order: accepts, resolved names, connections, and the operations of the sessions
-- of the server and of the client, also of those that the client has let go.
use mathlib.Core.Path.{subst}
use micro_tcp.Common.{ℕ, suc, ◌≢◌, List, ◌∷◌, ◌++◌, some, ◌≡◌, String, ok, true, All}
use micro_tcp.World.{World}
use micro_tcp.Platform.{Platform}
use micro_tcp.Handlers.{example_handlers}
use micro_tcp.Session.{server, client, Session}
use micro_tcp.IoManager.{Resources}
use micro_tcp.IoManager.Lifecycle.{IsManaged}
use micro_tcp.Server.{ServerOf, accepted}
use micro_tcp.Session.Completion.{Completes}
use micro_tcp.Server.Running.{IsAlone-completes, All-middle}
use micro_tcp.Server.Serving.{IsServing, accepted-IsServing}
use micro_tcp.Client
use micro_tcp.Client.{release, resolved, connected}
use micro_tcp.Console.{
  quit, command, App, getline, dispatch, launch, server_of, client_of, with_server, with_client,
}

module _ (p : Platform) where
  open p use {Socket, ErrorCode}

  -- One completion, of the server, of the client, or of one of their sessions. A session that the
  -- client has let go is destroyed when nothing of it is pending any more.
  pub data Happening (a : App p) : App p → Type 0 where
    accepts :
        (n : ℕ) (ec : ErrorCode) (sock : Socket)
        → a.server.accepting ≡ suc n
        → Happening a
            (with_server p (accepted p ec sock (record (server_of p a) { accepting = n })) a)
    serves :
        (before after : List (Session Socket)) (x y : Session Socket)
        → a.server.sessions ≡ before ++ x ∷ after
        → Completes p example_handlers server a.world x y
        → Happening a (
            with_server p (record (a.server) { sessions = before ++ y ∷ after; world = y.world }) a)
    resolves :
        (n : ℕ) (ec : ErrorCode)
        → a.client.resolving ≡ suc n
        → Happening a (with_client p (resolved p ec (client_of p a)) a)
    connects :
        (n : ℕ) (ec : ErrorCode) (sock : Socket)
        → a.client.connecting ≡ suc n
        → Happening a (with_client p (connected p ec sock (client_of p a)) a)
    answers :
        (x y : Session Socket)
        → a.client.active_session ≡ some x
        → Completes p example_handlers client a.world x y
        → Happening a
            (with_client p (record (a.client) { active_session = some y; world = y.world }) a)
    ends :
        (before after : List (Session Socket)) (x y : Session Socket)
        → a.client.detached ≡ before ++ x ∷ after
        → Completes p example_handlers client a.world x y
        → Happening a (
            with_client p
              (record (a.client) { detached = release (some y) before ++ after; world = y.world })
              a)

  -- What `main` reaches with this address and port of the configuration, on the input `input`, where
  -- the system has `r` for its threads: the lines that are left, and the objects.
  pub data Reached (r : Resources) (address : String) (port hardware_concurrency : ℕ)
      (input : List String) (w : World) : List String → App p → Type 0 where
    launches :
        {a : App p}
        → launch p r address port hardware_concurrency w ≡ ok a
        → Reached r address port hardware_concurrency input w input a
    happens :
        {ls : List String} {a b : App p}
        → Reached r address port hardware_concurrency input w ls a
        → Happening a b
        → Reached r address port hardware_concurrency input w ls b
    commands :
        {ls rest : List String} {a b : App p}
        → Reached r address port hardware_concurrency input w ls a
        → (command (getline ls).0 ≢ quit)
        → dispatch p address port (command (getline ls).0) (getline ls).1 a ≡ ok (rest, b)
        → Reached r address port hardware_concurrency input w rest b

  -- The threads of the manager run; the sessions of the server are each in a state that they reach by
  -- themselves, with the handler of `main`, and an accept is pending while the server listens.
  pub record IsRunning (a : App p) : Type 0 where
    pub managed : IsManaged a.io_manager
    pub active : a.io_manager.active ≡ true
    pub serving : IsServing p example_handlers a.server

  pub with_server-IsRunning :
      (a : App p) (s : ServerOf p)
      → IsServing p example_handlers s
      → IsRunning a
      → IsRunning (with_server p s a)
  with_server-IsRunning a s v r = record { managed = r.managed; active = r.active; serving = v }

  pub with_client-IsRunning :
      (a : App p) (c : Client.Client Socket) → IsRunning a → IsRunning (with_client p c a)
  with_client-IsRunning a c r = record {
    managed = r.managed;
    active = r.active;
    serving = r.serving;
  }

  serves-IsServing :
      (a : App p) (before after : List (Session Socket)) (x y : Session Socket)
      → a.server.sessions ≡ before ++ x ∷ after
      → Completes p example_handlers server a.world x y
      → IsServing p example_handlers a.server
      → IsServing p example_handlers
          (record (a.server) { sessions = before ++ y ∷ after; world = y.world })
  serves-IsServing a before after x y m (first, rest, op, ec, bytes, e, g)
        (handler, alone, accept) =
      (
        handler,
        All-middle p example_handlers before after x y
            (IsAlone-completes p example_handlers x y a.world first rest op ec bytes e g)
            (subst (All _) m alone),
        accept,
      )

  pub Happening-IsRunning : {a b : App p} → Happening a b → IsRunning a → IsRunning b
  Happening-IsRunning {a} (accepts n ec sock e) r =
      with_server-IsRunning a (accepted p ec sock (record (server_of p a) { accepting = n }))
        (accepted-IsServing p example_handlers n ec sock (server_of p a) r.serving) r
  Happening-IsRunning {a} (serves before after x y m c) r =
      with_server-IsRunning a
        (record (a.server) { sessions = before ++ y ∷ after; world = y.world })
        (serves-IsServing a before after x y m c r.serving) r
  Happening-IsRunning {a} (resolves n ec e) r = with_client-IsRunning a _ r
  Happening-IsRunning {a} (connects n ec sock e) r = with_client-IsRunning a _ r
  Happening-IsRunning {a} (answers x y m c) r = with_client-IsRunning a _ r
  Happening-IsRunning {a} (ends before after x y m c) r = with_client-IsRunning a _ r
