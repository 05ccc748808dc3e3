-- ===== src/Client.antt =====
-- include/micro_tcp/client.hpp and client.cpp: the resolver, the connection, and the active session.
--
-- `resolving` and `connecting` count the operations that are started and not completed. A session
-- lives on while an operation of it is pending: `detached` holds those that were active before.
pub mod Calls
pub mod Echo
pub mod Misuse
pub mod Running
pub mod Careful
pub mod Writes
use micro_tcp.Common.{
  ℕ, ◌+◌, ◌-◌, Bool, true, false, not, List, [], ◌∷◌, ◌++◌, Option, none, some, String,
  if◌then◌else◌,
}
use micro_tcp.World.{World, Piece, Line, lit, cerr, print}
use micro_tcp.Platform.{Platform}
use micro_tcp.Message.{Message, default_message}
use micro_tcp.Files.{read_file}
use micro_tcp.Session.{Session, session, stop, is_alive}
use micro_tcp.Session.ClientSession

pub record Client (S : Type 0) : Type 0 where
  pub active_session : Option (Session S)
  pub detached : List (Session S)
  pub resolving : ℕ
  pub connecting : ℕ
  pub world : World

unfoldable pub client : {S : Type 0} → World → Client S
client w = record { active_session = none; detached = []; resolving = 0; connecting = 0; world = w }

module _ {S : Type 0} where
  -- The shared pointer gives its session up. The handlers of pending operations keep a session alive;
  -- without any it is destroyed, and its socket with it.
  abbrev pub release : Option (Session S) → List (Session S) → List (Session S)
  release none l = l
  release (some s) l = elim s.pending [ [] ↦ l | op ∷ ops ↦ l ++ s ∷ [] ]

  -- The host and the port go to the resolver alone, whose result is an argument of `resolved` and
  -- `connected`, so that they are left out.
  unfoldable pub connect : Client S → Client S
  connect c = record c { resolving = c.resolving + 1 }

module _ (p : Platform) where
  open p use {ErrorCode, failed, is_connection_aborted, error_message, Socket}

  -- The handler of the resolver: the endpoints that were found are tried in turn.
  unfoldable pub resolved : ErrorCode → Client Socket → Client Socket
  resolved ec c =
      let c' = record c { resolving = c.resolving - 1 } in
      if not (failed ec) then record c' { connecting = c'.connecting + 1 } else c'

  -- The handler of the connection, with the connected socket.
  unfoldable pub connected : ErrorCode → Socket → Client Socket → Client Socket
  connected ec sock c =
      let c' = record c { connecting = c.connecting - 1 } in
      if not (failed ec)
      then record c' {
        active_session = some (ClientSession.start (session sock c.world));
        detached = release c.active_session c.detached;
      }
      else if not (is_connection_aborted ec)
      then record c' {
        world =
            print
              (cerr (
                lit "client::connect | Client connection failed | Boost asio/system error message: "
                ∷ lit (error_message ec)
                ∷ []))
              c.world;
      }
      else c'

  -- `active_session_ && active_session_->is_alive()`.
  abbrev pub alive : Option (Session Socket) → Bool
  alive none = false
  alive (some s) = is_alive p s

  unfoldable pub is_connected : Client Socket → Bool
  unfolding is_alive
  is_connected c = alive c.active_session

  -- A call on the object that the shared pointer holds, in the world as it is.
  abbrev pub on_held :
      (Session Socket → Session Socket) → Option (Session Socket) → Client Socket → Client Socket
  on_held f none c = c
  on_held f (some s) c =
      let s' = f (record s { world = c.world }) in
      record c { active_session = some s'; world = s'.world }

  abbrev pub on_active : (Session Socket → Session Socket) → Client Socket → Client Socket
  on_active f c = on_held f c.active_session c

  unfoldable pub disconnect : Client Socket → Client Socket
  unfolding is_connected
  disconnect c =
      let c' = if is_connected c then on_active (stop p) c else c in
      record c' { active_session = none; detached = release c'.active_session c'.detached }

  unfoldable pub send : Message → Client Socket → Bool × Client Socket
  unfolding is_connected
  send message c =
      if is_connected c then (true, on_active (ClientSession.send message) c) else (false, c)

  -- The end of `send_file`, after the answer of `read_file`.
  abbrev pub send_read : Client Socket → Bool × Message × World → Bool × Client Socket
  send_read c (done, file, w) =
      let c' = record c { world = w } in if done then send file c' else (false, c')

  unfoldable pub send_file : String → Client Socket → Bool × Client Socket
  send_file file_path c = send_read c (read_file file_path default_message c.world)
