-- ===== src/Server/Settings.antt =====
-- The changes of the server's settings, while it listens and while it does not.
use micro_tcp.Common.{ℕ, Bool, true, false, not, ◌≡◌, refl, ok, arith, if◌then◌else◌}
use micro_tcp.Platform.{Platform}
use micro_tcp.Server.{ServerOf, is_listening, set_address, set_port, port_in_use, change_port}

-- set_address changes the address in every state of the server and keeps the port; its answer is
-- whether the server does not listen.
pub set_address_lem :
    (p : Platform) (s : ServerOf p) (a : p.Address)
    → ((set_address p a s).0 ≡ not (is_listening p s))
      × ((set_address p a s).1.endpoint.address ≡ a)
      × ((set_address p a s).1.endpoint.port ≡ s.endpoint.port)
unfolding set_address is_listening
set_address_lem p s a = ground arith

-- A server that does not listen refuses a port that is in use and takes any other one, where
-- `port_in_use` answers: its answer is whether the port was taken, and only then the port changes.
pub set_port_lem :
    (p : Platform) (s : ServerOf p) (port : ℕ) (used : Bool)
    → is_listening p s ≡ false
    → port_in_use p port s ≡ ok used
    → (t : ServerOf p) × (set_port p port s ≡ ok (not used, t))
      × (t.endpoint ≡ (if used then s.endpoint else record s.endpoint { port = port }))
      × (t.acceptor ≡ s.acceptor)
unfolding is_listening set_port
set_port_lem p s port true l u = ((change_port p port s true).1, rw (l, u), refl, refl)
set_port_lem p s port false l u = ((change_port p port s false).1, rw (l, u), refl, refl)
