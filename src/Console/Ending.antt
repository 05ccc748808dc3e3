-- ===== src/Console/Ending.antt =====
-- The end of `main` while the threads of the manager run: the calls behind the loop, and between them
-- what still completes. The last call joins the threads; what completes while it waits for them does
-- not touch the manager and stands in front of it here.
use mathlib.Core.Path.{subst}
use micro_tcp.Common.{ℕ, ◌≢◌, [], ◌≡◌, refl, Result, ok, throw, ◌>>=◌, false, arith, ◌∙◌, length}
use micro_tcp.Platform.{Platform}
use micro_tcp.Handlers.{example_handlers}
use micro_tcp.IoManager
use micro_tcp.IoManager.{IoManager}
use micro_tcp.IoManager.Lifecycle.{IsManaged, Returns, stop-IsManaged, destroy_lem}
use micro_tcp.Server
use micro_tcp.Server.{ServerOf, accepted}
use micro_tcp.Server.Serving.{IsServing, stop-IsServing}
use micro_tcp.Console.{App, end_client, end_server, end_manager, server_of}
use micro_tcp.Console.Setup.{tear_down}
use micro_tcp.Console.System.{
  Happening, accepts, serves, resolves, connects, answers, ends, IsRunning, with_server-IsRunning,
  with_client-IsRunning, Happening-IsRunning,
}

-- How far the end of `main` has come: `quit` has been read, or so many of the three calls are over.
pub data Phase : Type 0 where
  quitting disconnected server_stopped finished : Phase

module _ (p : Platform) where
  -- What the end of `main` comes to from the objects `a`.
  pub data Ending (a : App p) : Phase → App p → Type 0 where
    quits : Ending a quitting a
    disconnects : {b : App p} → Ending a quitting b → Ending a disconnected (end_client p b)
    stops_server :
        {b c : App p} → Ending a disconnected b → end_server p b ≡ ok c → Ending a server_stopped c
    stops_manager :
        {b c : App p} → Ending a server_stopped b → end_manager p b ≡ ok c → Ending a finished c
    meanwhile :
        {ph : Phase} {b c : App p} → Ending a ph b → ph ≢ finished → Happening p b c → Ending a ph c

  abbrev HasStopped : App p → Type 0
  HasStopped c = IsRunning p c × (Server.is_listening p c.server ≡ false)

  abbrev IsFinished : App p → Type 0
  IsFinished c =
      IsServing p example_handlers c.server
      × (Server.is_listening p c.server ≡ false)
      × (c.io_manager.active ≡ false)
      × IsManaged c.io_manager

  Happening-is_listening :
      {a b : App p}
      → Happening p a b
      → Server.is_listening p b.server ≡ Server.is_listening p a.server
  unfolding Server.is_listening accepted
  Happening-is_listening (accepts n ec sock e) = ground arith
  Happening-is_listening (serves before after x y m c) = refl
  Happening-is_listening (resolves n ec e) = refl
  Happening-is_listening (connects n ec sock e) = refl
  Happening-is_listening (answers x y m c) = refl
  Happening-is_listening (ends before after x y m c) = refl

  -- What holds at each point of the end.
  abbrev pub Holds : Phase → App p → Type 0
  Holds quitting b = IsRunning p b
  Holds disconnected b = IsRunning p b
  Holds server_stopped b = HasStopped b
  Holds finished b = IsFinished b

  Holds-happening :
      (ph : Phase) {a b : App p} → ph ≢ finished → Happening p a b → Holds ph a → Holds ph b
  Holds-happening quitting n e h = Happening-IsRunning p e h
  Holds-happening disconnected n e h = Happening-IsRunning p e h
  Holds-happening server_stopped n e (r, l) =
      (Happening-IsRunning p e r, Happening-is_listening e ∙ l)
  Holds-happening finished n e h = absurd (n refl)

  module _ (closes : (b : p.Acceptor) → p.failed (p.close_acceptor b).0 ≡ false) where
    pub stop_returns :
        (s : ServerOf p)
        → Server.stop p s ≡ ok (record s { acceptor = (p.close_acceptor s.acceptor).1 })
    unfolding Server.stop
    stop_returns s = rw (closes s.acceptor)

    end_server-HasStopped : (b : App p) → IsRunning p b → Returns HasStopped (end_server p b)
    unfolding end_server Server.is_listening
    end_server-HasStopped b r = rw (stop_returns (server_of p b)) (
      with_server-IsRunning p b _
          (stop-IsServing p example_handlers (server_of p b) _ (stop_returns _) r.serving) r,
      p.close_acceptor_closes _,
    )

    stopped-IsFinished :
        (b : App p) (o : Result IoManager) (n : ℕ)
        → HasStopped b
        → Returns (λ m. IsManaged m × (m.active ≡ false) × (length m.threads ≡ n)) o
        → Returns IsFinished (o >>= λ m. ok (record b { io_manager = m }))
    stopped-IsFinished b (ok m) n (r, l) (v, e, _) = (r.serving, l, e, v)
    stopped-IsFinished b (throw e) n h f = f

    end_manager-IsFinished : (b : App p) → HasStopped b → Returns IsFinished (end_manager p b)
    unfolding end_manager
    end_manager-IsFinished b (r, l) =
        stopped-IsFinished b (IoManager.stop b.io_manager) _ (r, l)
          (stop-IsManaged b.io_manager r.managed)

    pub Ending-Holds :
        {a : App p} {ph : Phase} {b : App p} → IsRunning p a → Ending a ph b → Holds ph b
    unfolding end_client
    Ending-Holds r quits = r
    Ending-Holds r (disconnects {b} e) = with_client-IsRunning p b _ (Ending-Holds r e)
    Ending-Holds r (stops_server {b} e s) =
        subst (Returns HasStopped) s (end_server-HasStopped b (Ending-Holds r e))
    Ending-Holds r (stops_manager {b} e s) =
        subst (Returns IsFinished) s (end_manager-IsFinished b (Ending-Holds r e))
    Ending-Holds r (meanwhile {ph} e n h) = Holds-happening ph n h (Ending-Holds r e)

    destroy_returns :
        (s : ServerOf p)
        → Server.destroy p s ≡ ok (record s { acceptor = (p.close_acceptor s.acceptor).1 })
    unfolding Server.destroy Server.stop
    destroy_returns s = ground (arith, closes s.acceptor)

    tear_down_lem : (a : App p) → IsManaged a.io_manager → tear_down p a ≡ ok []
    unfolding tear_down
    tear_down_lem a v = rw (destroy_returns (server_of p a)) (destroy_lem a.io_manager v)

  pub Returns-ok : {A : Type 0} (Q : A → Type 0) (o : Result A) → Returns Q o → (c : A) × (o ≡ ok c)
  Returns-ok Q (ok c) h = (c, refl)
  Returns-ok Q (throw e) h = absurd h

  -- What comes next: the next call returns, and behind the last one the objects are destroyed without
  -- an exception or a call of `std::terminate`.
  abbrev pub GoesOn : Phase → App p → Type 0
  GoesOn quitting b = Unit
  GoesOn disconnected b = (c : App p) × (end_server p b ≡ ok c)
  GoesOn server_stopped b = (c : App p) × (end_manager p b ≡ ok c)
  GoesOn finished b = tear_down p b ≡ ok []

  pub Holds-GoesOn :
      (ph : Phase) (b : App p)
      → ((b : p.Acceptor) → p.failed (p.close_acceptor b).0 ≡ false)
      → Holds ph b
      → GoesOn ph b
  Holds-GoesOn quitting b closes h = tt
  Holds-GoesOn disconnected b closes h =
      Returns-ok HasStopped (end_server p b) (end_server-HasStopped closes b h)
  Holds-GoesOn server_stopped b closes h =
      Returns-ok IsFinished (end_manager p b) (end_manager-IsFinished closes b h)
  Holds-GoesOn finished b closes h = tear_down_lem closes b h.3

  pub Holds-IsServing :
      (ph : Phase) (b : App p) → Holds ph b → IsServing p example_handlers b.server
  Holds-IsServing quitting b h = h.serving
  Holds-IsServing disconnected b h = h.serving
  Holds-IsServing server_stopped b h = h.0.serving
  Holds-IsServing finished b h = h.0
