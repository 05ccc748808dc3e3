-- ===== src/Console/Late.antt =====
-- A connection that is made behind the call of `disconnect` at the end of `main`.
use micro_tcp.Common.{ℕ, suc, arith, ◌∙◌, List, ◌≡◌, refl, String, ok, false, true}
use micro_tcp.World.{World}
use micro_tcp.Platform.{Platform}
use micro_tcp.Session
use micro_tcp.Session.ClientSession
use micro_tcp.Session.{server}
use micro_tcp.IoManager
use micro_tcp.IoManager.{Resources, IoManager, io_manager, default_num_threads}
use micro_tcp.IoManager.Lifecycle.{stop-IsManaged}
use micro_tcp.Client
use micro_tcp.Client.{release, resolved, connected}
use micro_tcp.Console.{
  App, end_client, end_server, end_manager, server_of, client_of, with_server, with_client,
}
use micro_tcp.Console.Ending.{
  finished, Ending, quits, disconnects, stops_server, stops_manager, meanwhile, Returns-ok,
  stop_returns,
}
use micro_tcp.Console.System.{connects, Reached}
use micro_tcp.Console.Life.{Reached-IsRunning}

disconnect-connecting :
    (p : Platform) (c : Client.Client p.Socket) → (Client.disconnect p c).connecting ≡ c.connecting
unfolding Client.disconnect Client.is_connected
disconnect-connecting p c = ground arith

connected-is_connected :
    (p : Platform) (ec : p.ErrorCode) (sock : p.Socket) (c : Client.Client p.Socket)
    → p.failed ec ≡ false
    → p.is_open sock ≡ true
    → Client.is_connected p (connected p ec sock c) ≡ true
unfolding connected Client.is_connected Session.is_alive ClientSession.start Session.session
connected-is_connected p ec sock c e o = ground arith

-- A connection that is still being made when quit is entered can complete behind the call of
-- disconnect: then main returns, if an acceptor can always be closed, with a client that is connected.
pub connects_late :
    (p : Platform) (r : Resources) (address : String) (port hardware_concurrency : ℕ)
    (input : List String) (w : World) {ls : List String} {a : App p} (n : ℕ) (ec : p.ErrorCode)
    (sock : p.Socket)
    → ((c : p.Acceptor) → p.failed (p.close_acceptor c).0 ≡ false)
    → Reached p r address port hardware_concurrency input w ls a
    → a.client.connecting ≡ suc n
    → p.failed ec ≡ false
    → p.is_open sock ≡ true
    → (b : App p) × Ending p a finished b × (Client.is_connected p b.client ≡ true)
unfolding end_client end_server end_manager
connects_late p r address port hardware_concurrency input w {a = a} n ec sock closes path k e o =
    let running = Reached-IsRunning p r address port hardware_concurrency input w path in
    let b1 = end_client p a in
    let b2 = with_client p (connected p ec sock (client_of p b1)) b1 in
    let s = record (server_of p b2) { acceptor = (p.close_acceptor a.server.acceptor).1 } in
    let b3 = with_server p s b2 in
    let (m, joins) =
      Returns-ok p _ (IoManager.stop a.io_manager) (stop-IsManaged a.io_manager running.managed) in
    let stopped : end_server p b2 ≡ ok b3 = rw (stop_returns p closes (server_of p b2)) refl in
    let ended : end_manager p b3 ≡ ok (record b3 { io_manager = m }) = rw joins refl in
    let late =
      meanwhile (disconnects quits) (λ f. cc)
        (connects n ec sock (disconnect-connecting p (client_of p a) ∙ k)) in
    (
      record b3 { io_manager = m },
      stops_manager {b = b3} (stops_server {b = b2} late stopped) ended,
      connected-is_connected p ec sock (client_of p b1) e o,
    )
