-- ===== src/Session/Life.antt =====
-- The whole life of a server session: the handshake, the requests, and the end of the connection.
use micro_tcp.Common.{
  List, [], ◌∷◌, ◌++◌, ◌≡◌, refl, true, false, ok, throw, ◌>>=◌, Result, Bytes, All, length, ◌<◌,
  ◌^◌,
}
use micro_tcp.Platform.{Platform}
use micro_tcp.World.{World}
use micro_tcp.Message.{default_message}
use micro_tcp.Handlers.{Handlers}
use micro_tcp.Session.{server, async_read_header, Session, session}
use micro_tcp.Session.ServerSession
use micro_tcp.Session.Completion.{run}
use micro_tcp.Session.Service.{responses, rounds, run-append, HasAnswered, server_serves}
use micro_tcp.Session.Closing.{IsClosed, failure_closes}

-- A failed read behind a run that has ended in a waiting session.
IsClosed-answered :
    (p : Platform) (h : Handlers) (sent : Bytes) (o : Result (Session p.Socket × Bytes))
    (ec e1 e2 : p.ErrorCode) (bytes b1 b2 : Bytes)
    → HasAnswered p sent o
    → p.failed ec ≡ true
    → p.is_operation_aborted ec ≡ false
    → IsClosed p h sent (o >>= run p h server ((ec, bytes) ∷ (e1, b1) ∷ (e2, b2) ∷ []))
IsClosed-answered p h sent (ok (s, out)) ec e1 e2 bytes b1 b2 (same, waits) f a =
    rw (← same)
      (failure_closes p h server (async_read_header 28) s out ec e1 e2 bytes b1 b2 waits.0 refl f a)
IsClosed-answered p h sent (throw e) ec e1 e2 bytes b1 b2 r f a = absurd r

-- A server session whose handshake succeeds, which serves any requests of less than 10^10 bytes of
-- content each without errors, and whose next read then fails with any error but operation_aborted:
-- it has sent the specified responses and nothing else, and after the completions of the shutdown
-- and of the null write, with whatever error codes, its socket is closed and nothing is pending.
pub server_lives :
    (p : Platform) (h : Handlers) (fine : p.ErrorCode) (contents : List Bytes) (sock : p.Socket)
    (w : World) (ec e1 e2 : p.ErrorCode) (bytes b1 b2 : Bytes)
    → p.failed fine ≡ false
    → All (λ c. length c < 10 ^ 10) contents
    → p.failed ec ≡ true
    → p.is_operation_aborted ec ≡ false
    → IsClosed p h (responses h default_message contents) (
        run p h server
          (((fine, []) ∷ rounds fine contents) ++ (ec, bytes) ∷ (e1, b1) ∷ (e2, b2) ∷ [])
          (ServerSession.start (session sock w), []))
server_lives p h fine contents sock w ec e1 e2 bytes b1 b2 succeeds lt f a =
    rw
      (run-append p h server ((fine, []) ∷ rounds fine contents)
        ((ec, bytes) ∷ (e1, b1) ∷ (e2, b2) ∷ []) (ServerSession.start (session sock w), []))
      (IsClosed-answered p h (responses h default_message contents)
        (run p h server ((fine, []) ∷ rounds fine contents)
          (ServerSession.start (session sock w), []))
        ec e1 e2 bytes b1 b2 (server_serves p h fine contents sock w succeeds lt) f a)
