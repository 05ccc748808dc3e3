-- ===== src/Console.antt =====
-- src/main.cpp: the objects of `main`, its console loop and its end. The lines in front of them, which
-- read the options and the configuration and set up the TLS context of the server, are in Setup; of
-- these the address and the port of the configuration are arguments here. The loop runs here by
-- itself; what happens beside it is in System.
pub mod Loop
pub mod Safety
pub mod Setup
pub mod Startup
pub mod System
pub mod Ending
pub mod Life
pub mod Late
pub mod Writes
use text.Mathlib.Text.{◌==◌}
use micro_tcp.Common.{
  ℕ, zero, suc, Bool, true, false, List, [], ◌∷◌, ◌++◌, Option, none, some, String, codes,
  if◌then◌else◌, Result, ok, throw, Exception, bad_lexical_cast, ◌>>=◌,
}
use micro_tcp.World.{World, Piece, Line, lit, number, cout, print}
use micro_tcp.Platform.{Platform}
use micro_tcp.Message.{message}
use micro_tcp.IoManager
use micro_tcp.IoManager.{IoManager, io_manager, default_num_threads}
use micro_tcp.Handlers.{handle_request}
use micro_tcp.Server
use micro_tcp.Server.{ServerOf}
use micro_tcp.Client
use micro_tcp.Client.{Client}

pub data Command : Type 0 where
  server_start server_stop server_set_address server_set_port : Command
  client_connect client_disconnect client_send client_send_file : Command
  status quit invalid : Command

-- The comparisons of the loop, in their order.
unfoldable pub command : String → Command
command input =
    if input == "server_start"
    then server_start
    else if input == "server_stop"
    then server_stop
    else if input == "server_set_address"
    then server_set_address
    else if input == "server_set_port"
    then server_set_port
    else if input == "client_connect"
    then client_connect
    else if input == "client_disconnect"
    then client_disconnect
    else if input == "client_send"
    then client_send
    else if input == "client_send_file"
    then client_send_file
    else if input == "status"
    then status
    else if input == "quit"
    then quit
    else invalid

-- `std::getline` into the `input` of a round: at the end of the input the text is empty. Every line,
-- the last one too, is taken to end with a newline: where a command is the last line and has none, the
-- source leaves the command in `input` as the text behind it.
abbrev pub getline : List String → String × List String
getline [] = ("", [])
getline (l ∷ ls) = (l, ls)

-- The objects of `main`. `world` is the one that they share.
pub record App (p : Platform) : Type 0 where
  pub server : ServerOf p
  pub client : Client p.Socket
  pub io_manager : IoManager
  pub world : World

abbrev pub show : Bool → Piece
show true = lit "true"
show false = lit "false"

module _ (p : Platform) where
  -- Calls on the server and on the client, in the shared world.
  abbrev pub with_server : ServerOf p → App p → App p
  with_server s a = record a { server = s; world = s.world }

  abbrev pub with_client : Client p.Socket → App p → App p
  with_client c a = record a { client = c; world = c.world }

  abbrev pub server_of : App p → ServerOf p
  server_of a = record (a.server) { world = a.world }

  abbrev pub client_of : App p → Client p.Socket
  client_of a = record (a.client) { world = a.world }

  abbrev pub say : List Piece → App p → App p
  say text a = record a { world = print (cout text) a.world }

  unfoldable pub change_port : Option ℕ → App p → Result (App p)
  change_port none a = throw bad_lexical_cast
  change_port (some port) a = Server.set_port p port (server_of a) >>= λ x. ok (with_server x.1 a)

  unfoldable pub show_status : App p → App p
  show_status a =
      let connected = Client.is_connected p (client_of a) in
      let a1 =
        say
          (lit "##################################\n<|Server|>\n Address: "
            ∷ lit (Server.get_address p (server_of a))
            ∷ lit "\n Port: "
            ∷ number (Server.get_port p (server_of a))
            ∷ lit "\n Listening: "
            ∷ show (Server.is_listening p (server_of a))
            ∷ lit "\n<|Client|>\n Connected: "
            ∷ show connected
            ∷ [])
          a in
      let a2 = if connected then say (lit "\n  *Host: x.x.x.x\n  *Port: 00000" ∷ []) a1 else a1 in
      say (lit "\n##################################\n" ∷ []) a2

  -- What a command but `quit` does, with the lines that follow it; it returns the lines left over.
  -- `address` and `port` are those of the configuration.
  unfoldable pub dispatch :
      String → ℕ → Command → List String → App p → Result (List String × App p)
  unfolding change_port show_status
  dispatch address port server_start ls a = ok (ls, with_server (Server.start p (server_of a)) a)
  dispatch address port server_stop ls a =
      Server.stop p (server_of a) >>= λ s. ok (ls, with_server s a)
  dispatch address port server_set_address ls a =
      let a1 =
        say (lit "Enter an address in dotted decimal (IPv4) or hexadecimal (IPv6):" ∷ []) a in
      let (input, rest) = getline ls in
      ok (rest, with_server (Server.set_address_text p input (server_of a1)).1 a1)
  dispatch address port server_set_port ls a =
      let a1 = say (lit "Enter a port (0-65535):" ∷ []) a in
      let (input, rest) = getline ls in change_port (p.to_port input) a1 >>= λ a2. ok (rest, a2)
  dispatch address port client_connect ls a = ok (ls, with_client (Client.connect (client_of a)) a)
  dispatch address port client_disconnect ls a =
      ok (ls, with_client (Client.disconnect p (client_of a)) a)
  dispatch address port client_send ls a =
      let a1 = say (lit "Enter a message:" ∷ []) a in
      let (input, rest) = getline ls in
      ok (rest, with_client (Client.send p (message (codes input)) (client_of a1)).1 a1)
  dispatch address port client_send_file ls a =
      let a1 = say (lit "Enter a file path:" ∷ []) a in
      let (input, rest) = getline ls in
      ok (rest, with_client (Client.send_file p input (client_of a1)).1 a1)
  dispatch address port status ls a = ok (ls, show_status a)
  dispatch address port _ ls a = ok (
    ls,
    say
        (lit
            "Invalid input! The following input is available:\n- server_start\n- server_stop\n- server_set_address\n- server_set_port\n- client_connect\n- client_disconnect\n- client_send\n- client_send_file\n- status\n- quit"
          ∷ [])
        a,
  )

  -- The end of `main`, behind the loop: three calls, between which other threads run (see Ending).
  unfoldable pub end_client : App p → App p
  end_client a = with_client (Client.disconnect p (client_of a)) a

  unfoldable pub end_server : App p → Result (App p)
  end_server a = Server.stop p (server_of a) >>= λ s. ok (with_server s a)

  unfoldable pub end_manager : App p → Result (App p)
  end_manager a = IoManager.stop a.io_manager >>= λ m. ok (record a { io_manager = m })

  -- The three calls, with nothing between them.
  unfoldable pub finish : App p → Result (App p)
  unfolding end_client end_server end_manager
  finish a = end_server (end_client a) >>= end_manager

  -- What `n` rounds of the loop come to: the end of `main`, or the lines left over.
  pub data Outcome : Type 0 where
    returned : App p → Outcome
    looping : List String → App p → Outcome

  -- The loop by itself: no asynchronous operation completes while it runs.
  unfoldable pub console : String → ℕ → ℕ → List String → App p → Result Outcome
  unfolding command dispatch finish
  console address port zero ls a = ok (looping ls a)
  console address port (suc n) ls a =
      let (input, rest) = getline ls in
      elim (command input) [
        | quit ↦ finish a >>= λ a'. ok (returned a')
        | c ↦ dispatch address port c rest a >>= λ x. console address port n x.0 x.1
      ]

  -- An exception that leaves `start` leaves `main` too, and ends the program.
  unfoldable pub started : Option Exception × IoManager → Result IoManager
  started (none, m) = ok m
  started (some e, m) = throw e

  -- The objects of `main`, with its handlers, before the loop: `address` and `port` are read from
  -- the configuration, and the threads of the manager are started, as far as the system has `r`.
  unfoldable pub launch : IoManager.Resources → String → ℕ → ℕ → World → Result (App p)
  unfolding started
  launch r address port hardware_concurrency w = do
    s ← Server.server_at p address port handle_request w
    x ← IoManager.start r (default_num_threads hardware_concurrency) io_manager
    m ← started x
    ok (record { server = s; client = Client.client w; io_manager = m; world = w })
