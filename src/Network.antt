-- ===== src/Network.antt =====
-- A client session and a server session with the connection between them: include/micro_tcp/
-- client_session.cpp and server_session.cpp at the two ends of a TCP connection, whose bytes arrive in
-- pieces of any size. The operations at the two ends complete in any order, and any of them may fail.
pub mod Specification
pub mod History
pub mod Handing
pub mod Carried
pub mod Over
pub mod Account
pub mod Ends
pub mod Closing
pub mod Completing
pub mod Invariant
pub mod Delivery
pub mod Phases
pub mod Counts
pub mod Reading
pub mod Progress
pub mod Concluding
pub mod Turns
pub mod Liveness
pub mod Handed
use micro_tcp.Common.{
  ℕ, Bool, true, false, not, ◌&&◌, List, [], ◌∷◌, ◌++◌, ◌≡◌, ◌⊎◌, ok, Bytes, length, drop,
  if◌then◌else◌,
}
use micro_tcp.Platform.{Platform}
use micro_tcp.World.{World}
use micro_tcp.Message.{Message}
use micro_tcp.Handlers.{Handlers}
use micro_tcp.Session.{
  Role, server, client, Operation, async_handshake, async_read_header, async_read_content,
  async_write_header, async_write_content, async_shutdown, async_write_null, async_wait, Session,
  session, stop,
}
use micro_tcp.Session.ServerSession
use micro_tcp.Session.ClientSession
use micro_tcp.Session.Completion.{complete, fill}

-- The bytes that go one way, in their order: those that the peer has read, those that the connection has
-- taken, which the peer can read at any time from then on, and those of the pending write that it has
-- not taken yet.
pub record Stream : Type 0 where
  pub consumed : Bytes
  pub arrived : Bytes
  pub unsent : Bytes

abbrev pub silent : Stream
silent = record { consumed = []; arrived = []; unsent = [] }

abbrev pub whole : Stream → Bytes
whole i = i.consumed ++ (i.arrived ++ i.unsent)

-- The bytes of the writes among some operations.
abbrev pub written : List Operation → Bytes
written [] = []
written (async_write_header b ∷ ops) = b ++ written ops
written (async_write_content b ∷ ops) = b ++ written ops
written (_ ∷ ops) = written ops

-- What a completion does to the streams `i` from the peer and `o` to it. A read without an error has
-- transferred as many bytes as it was asked for, and one with an error any that the connection had; a write
-- without an error is one whose bytes the connection has taken, and one with an error loses those that
-- it has not.
abbrev pub Reads : Bool → ℕ → Bytes → Stream → Stream → Type 0
Reads bad n bytes i i' =
    (i.arrived ≡ bytes ++ i'.arrived)
    × (i'.consumed ≡ i.consumed ++ bytes)
    × (i'.unsent ≡ i.unsent)
    × ((bad ≡ true) ⊎ (length bytes ≡ n))

abbrev pub Writes : Bool → Stream → Stream → Type 0
Writes bad o o' =
    (o'.consumed ≡ o.consumed)
    × (o'.arrived ≡ o.arrived)
    × (o'.unsent ≡ [])
    × ((bad ≡ true) ⊎ (o.unsent ≡ []))

abbrev pub Moves : Bool → Operation → Bytes → Stream → Stream → Stream → Stream → Type 0
Moves bad (async_read_header n) bytes i o i' o' = Reads bad n bytes i i' × (o' ≡ o)
Moves bad (async_read_content n) bytes i o i' o' = Reads bad n bytes i i' × (o' ≡ o)
Moves bad (async_write_header b) bytes i o i' o' = (i' ≡ i) × Writes bad o o'
Moves bad (async_write_content b) bytes i o i' o' = (i' ≡ i) × Writes bad o o'
Moves bad (async_handshake type) bytes i o i' o' = (i' ≡ i) × (o' ≡ o)
Moves bad async_shutdown bytes i o i' o' = (i' ≡ i) × (o' ≡ o)
Moves bad async_write_null bytes i o i' o' = (i' ≡ i) × (o' ≡ o)
Moves bad async_wait bytes i o i' o' = (i' ≡ i) × (o' ≡ o)

-- The bytes of the operations that a completion has begun, behind those that were pending.
abbrev pub begun : List Operation → List Operation → Bytes
begun pending ops = written (drop (length pending) ops)

abbrev pub behind : Stream → Bytes → Stream
behind o b = record o { unsent = o.unsent ++ b }

module _ (p : Platform) where
  open p use {Socket, ErrorCode, failed}

  -- The message that a completion hands to the handler of the user.
  abbrev pub handed : Operation → ErrorCode → Bytes → Session Socket → List Message
  handed (async_read_content n) ec bytes s =
      if failed ec
      then []
      else (record s.read_buffer { content_buffer = fill bytes s.read_buffer.content_buffer }) ∷ []
  handed _ ec bytes s = []

  -- The two ends, with the streams between them. An end is intact while no operation of it has failed and it was
  -- not stopped. `requests` are the messages that were given to `send`, `handled` those that the request
  -- handler was given, and `received` those that the response handler was given.
  pub record Network : Type 0 where
    pub client_end : Session Socket
    pub server_end : Session Socket
    pub client_intact : Bool
    pub server_intact : Bool
    pub up : Stream
    pub down : Stream
    pub requests : List Message
    pub handled : List Message
    pub received : List Message

  -- Both sessions have begun their handshakes.
  unfoldable pub network : Socket → Socket → World → World → Network
  network a b w v = record {
    client_end = ClientSession.start (session a w);
    server_end = ServerSession.start (session b v);
    client_intact = true;
    server_intact = true;
    up = silent;
    down = silent;
    requests = [];
    handled = [];
    received = [];
  }

  -- Some bytes arrive; a session completes an operation, in any world; the user of a client that is intact and
  -- has nothing pending sends a message; or the user stops the client's session, whatever is pending.
  pub data Step (h : Handlers) (n : Network) : Network → Type 0 where
    arrives_up :
        (a b : Bytes)
        → n.up.unsent ≡ a ++ b
        → Step h n (record n { up = record n.up { arrived = n.up.arrived ++ a; unsent = b } })
    arrives_down :
        (a b : Bytes)
        → n.down.unsent ≡ a ++ b
        → Step h n (record n { down = record n.down { arrived = n.down.arrived ++ a; unsent = b } })
    client_completes :
        (before after : List Operation) (op : Operation) (ec : ErrorCode) (bytes : Bytes)
        (w : World) (i o : Stream) {t : Session Socket}
        → n.client_end.pending ≡ before ++ op ∷ after
        → Moves (failed ec) op bytes n.down n.up i o
        → complete p h client op ec bytes
            (record n.client_end { pending = before ++ after; world = w })
          ≡ ok t
        → Step h n (record n {
          client_end = t;
          client_intact = n.client_intact && not (failed ec);
          down = i;
          up = behind o (begun (before ++ after) t.pending);
          received = n.received ++ handed op ec bytes n.client_end;
        })
    server_completes :
        (before after : List Operation) (op : Operation) (ec : ErrorCode) (bytes : Bytes)
        (w : World) (i o : Stream) {t : Session Socket}
        → n.server_end.pending ≡ before ++ op ∷ after
        → Moves (failed ec) op bytes n.up n.down i o
        → complete p h server op ec bytes
            (record n.server_end { pending = before ++ after; world = w })
          ≡ ok t
        → Step h n (record n {
          server_end = t;
          server_intact = n.server_intact && not (failed ec);
          up = i;
          down = behind o (begun (before ++ after) t.pending);
          handled = n.handled ++ handed op ec bytes n.server_end;
        })
    sends :
        (m : Message) (w : World)
        → n.client_intact ≡ true
        → n.client_end.pending ≡ []
        → Step h n (record n {
          client_end = ClientSession.send m (record n.client_end { world = w });
          up =
              behind n.up
                (begun [] (ClientSession.send m (record n.client_end { world = w })).pending);
          requests = n.requests ++ m ∷ [];
        })
    stops :
        (w : World)
        → Step h n (record n {
          client_end = stop p (record n.client_end { world = w });
          client_intact = false;
        })

  pub data Reach (h : Handlers) (n : Network) : Network → Type 0 where
    here : Reach h n n
    then : {m k : Network} → Reach h n m → Step h m k → Reach h n k
