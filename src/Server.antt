-- ===== src/Server.antt =====
-- include/micro_tcp/server.hpp and server.cpp: the acceptor, the endpoint it listens on, and the
-- sessions that are started for accepted connections.
--
-- `accepting` counts the asynchronous accepts that are started and not completed. `sessions` holds
-- the sessions in the order of their start; each goes on by itself (Session.antt), and the server
-- keeps no hold of it. The constructors also hand the cipher suite to OpenSSL, which is left out.
pub mod Settings
pub mod Accepting
pub mod Running
pub mod Serving
pub mod Writes
use micro_tcp.Common.{
  ℕ, ◌+◌, Bool, true, false, not, ◌&&◌, ◌||◌, List, [], ◌∷◌, ◌++◌, String, none, some,
  if◌then◌else◌, Result, ok, throw, system_error, terminate, ◌>>=◌,
}
use micro_tcp.World.{World, Piece, Line, lit, number, cout, cerr, print, is_empty}
use micro_tcp.Platform.{Platform, Endpoint}
use micro_tcp.Message.{Message}
use micro_tcp.Session.{Session, session}
use micro_tcp.Session.ServerSession

pub record Server (A B S : Type 0) : Type 0 where
  pub acceptor : A
  pub endpoint : Endpoint B
  pub request_handler : Message → Message → Message
  pub accepting : ℕ
  pub sessions : List (Session S)
  pub world : World

-- `server::debug`.
unfoldable pub debug : List Piece → List Piece → World → World
debug msg ec w =
    if is_empty ec
    then print (cout (lit "[host:port] | " ∷ msg)) w
    else print (cerr (lit "[host:port] | " ∷ (msg ++ lit " | Error code: " ∷ ec))) w

-- `request_handler_ = request_handler` assigns to the object that the reference is bound to. The
-- base class has no data, and the object keeps its class, so its `handle_request` stays.
abbrev pub assign :
    (Message → Message → Message) → (Message → Message → Message) → Message → Message → Message
assign target source = target

module _ {A B S : Type 0} where
  abbrev pub log : List Piece → List Piece → Server A B S → Server A B S
  log msg ec s = record s { world = debug msg ec s.world }

  abbrev pub do_accept : Server A B S → Server A B S
  do_accept s = record s { accepting = s.accepting + 1 }

module _ (p : Platform) where
  open p use {
    ErrorCode, failed, is_operation_aborted, is_address_in_use, error_message, Socket, Address,
    from_string, address_string, is_v4, is_v6, local_addresses, Acceptor, new_acceptor,
    acceptor_is_open, open_acceptor, set_reuse_address, bind, listen, close_acceptor,
  }

  abbrev pub ServerOf : Type 0
  ServerOf = Server Acceptor Address Socket

  -- The constructor from an endpoint. The one from a text and a port makes the endpoint by
  -- `from_string`, which throws on a text that is no address.
  unfoldable pub server : Endpoint Address → (Message → Message → Message) → World → ServerOf
  server endpoint request_handler w = record {
    acceptor = new_acceptor;
    endpoint = endpoint;
    request_handler = request_handler;
    accepting = 0;
    sessions = [];
    world = w;
  }

  unfoldable pub server_at : String → ℕ → (Message → Message → Message) → World → Result ServerOf
  unfolding server
  server_at address port request_handler w =
      let (ec, a) = from_string address in
      if failed ec
      then throw system_error
      else ok (server (record { address = a; port = port }) request_handler w)

  -- `acceptor_.close()` throws on an error.
  unfoldable pub stop : ServerOf → Result ServerOf
  stop s =
      let (ec, a) = close_acceptor s.acceptor in
      if failed ec then throw system_error else ok (record s { acceptor = a })

  -- An exception that leaves the destructor calls `std::terminate`.
  unfoldable pub destroy : ServerOf → Result ServerOf
  unfolding stop
  destroy s = elim (stop s) [ ok t ↦ ok t | throw e ↦ throw terminate ]

  unfoldable pub is_listening : ServerOf → Bool
  is_listening s = acceptor_is_open s.acceptor

  abbrev pub get_address : ServerOf → String
  get_address s = address_string s.endpoint.address

  abbrev pub get_port : ServerOf → ℕ
  get_port s = s.endpoint.port

  abbrev pub get_address_port : ServerOf → List Piece
  get_address_port s = lit (get_address s) ∷ lit ":" ∷ number (get_port s) ∷ []

  -- One step of `start_listening`: the acceptor is changed, and an error is logged and passed over.
  unfoldable pub attempt : (Acceptor → ErrorCode × Acceptor) → String → ServerOf → ServerOf
  attempt f what s =
      let (ec, a) = f s.acceptor in
      let s' = record s { acceptor = a } in
      if failed ec then log (lit what ∷ []) (lit (error_message ec) ∷ []) s' else s'

  unfoldable pub start_listening : ServerOf → ServerOf
  start_listening s =
      if not (acceptor_is_open s.acceptor)
      then (let s1 = attempt (open_acceptor s.endpoint.address) "Opening acceptor failed" s in
          let s2 = attempt set_reuse_address "Setting acceptor option failed" s1 in
          let s3 = attempt (bind s2.endpoint) "Binding acceptor to local endpoint failed" s2 in
          let s4 = attempt listen "Start listening for new connections failed" s3 in
          do_accept (
            log (lit "SERVER | started listening on <" ∷ (get_address_port s4 ++ lit ">." ∷ [])) []
              s4))
      else s

  unfoldable pub start : ServerOf → ServerOf
  unfolding start_listening
  start s = start_listening s

  -- The handler of an accept that completes with an error code and the socket of the connection.
  unfoldable pub accepted : ErrorCode → Socket → ServerOf → ServerOf
  accepted ec sock s =
      if not (acceptor_is_open s.acceptor)
      then log (lit "SERVER | stopped listening" ∷ []) [] s
      else do_accept (
          if not (failed ec)
          then record s { sessions = s.sessions ++ ServerSession.start (session sock s.world) ∷ [] }
          else if not (is_operation_aborted ec)
          then log (lit "Error on asynchronous accept" ∷ []) (lit (error_message ec) ∷ []) s
          else s)

  unfoldable pub set_address : Address → ServerOf → Bool × ServerOf
  set_address address s =
      let s1 = record s { endpoint = record s.endpoint { address = address } } in
      if acceptor_is_open s1.acceptor
      then (
        false,
        log (lit "Could not change the address" ∷ [])
            (lit "Stop the server before making any changes" ∷ []) s1,
      )
      else (let s2 = record s1 { endpoint = record s1.endpoint { address = address } } in
          (true, log (lit "SERVER | address set to " ∷ lit (get_address s2) ∷ []) [] s2))

  -- The overload for a text.
  unfoldable pub set_address_text : String → ServerOf → Bool × ServerOf
  unfolding set_address
  set_address_text address s =
      let (ec, a) = from_string address in if not (failed ec) then set_address a s else (false, s)

  -- An acceptor of its own is opened and bound; after an error in `open`, `bind` is not called.
  unfoldable pub port_in_use : ℕ → ServerOf → Result Bool
  port_in_use port s =
      let endpoint : Endpoint Address = record { address = s.endpoint.address; port = port } in
      let (ec, a) = open_acceptor s.endpoint.address new_acceptor in
      let (ec', a') = if failed ec then (ec, a) else bind endpoint a in
      if failed (close_acceptor a').0 then throw system_error else ok (is_address_in_use ec')

  -- The end of `set_port`, after the answer of `port_in_use`.
  abbrev pub change_port : ℕ → ServerOf → Bool → Bool × ServerOf
  change_port port s used =
      if used
      then (
        false,
        log (lit "Could not change the port" ∷ [])
            (lit "port " ∷ number port ∷ lit " is already in use by another service" ∷ []) s,
      )
      else (let s' = record s { endpoint = record s.endpoint { port = port } } in
          (true, log (lit "SERVER | port set to " ∷ number (get_port s') ∷ []) [] s'))

  unfoldable pub set_port : ℕ → ServerOf → Result (Bool × ServerOf)
  set_port port s =
      if acceptor_is_open s.acceptor
      then ok (
        false,
        log (lit "Could not change the port" ∷ [])
            (lit "Stop the server before making any changes" ∷ []) s,
      )
      else (port_in_use port s >>= λ used. ok (change_port port s used))

  unfoldable pub set_endpoint : Endpoint Address → ServerOf → Bool × ServerOf
  set_endpoint endpoint s =
      if acceptor_is_open s.acceptor
      then (
        false,
        log (lit "Could not change the endpoint" ∷ [])
            (lit "Stop the server before making any changes" ∷ []) s,
      )
      else (let s' = record s { endpoint = endpoint } in
          (
            true,
            log (lit "SERVER | endpoint set to <" ∷ (get_address_port s' ++ lit ">." ∷ [])) [] s',
          ))

  unfoldable pub set_request_handler : (Message → Message → Message) → ServerOf → Bool × ServerOf
  set_request_handler request_handler s =
      if acceptor_is_open s.acceptor
      then (
        false,
        log (lit "Could not change the request_handler" ∷ [])
            (lit "Stop the server before making any changes" ∷ []) s,
      )
      else (true, record s { request_handler = assign s.request_handler request_handler })

  -- The body of the loop of `get_local_addresses`.
  unfoldable pub keep_address : Bool → List String → Address → List String
  keep_address only_ipv4 addresses address =
      if is_v4 address
      then addresses ++ address_string address ∷ []
      else if is_v6 address && not only_ipv4
      then addresses ++ address_string address ∷ []
      else addresses

  unfoldable pub keep_addresses : Bool → List String → List Address → List String
  unfolding keep_address
  keep_addresses only_ipv4 addresses [] = addresses
  keep_addresses only_ipv4 addresses (a ∷ as') =
      keep_addresses only_ipv4 (keep_address only_ipv4 addresses a) as'

  unfoldable pub get_local_addresses : Bool → Result (List String)
  unfolding keep_addresses
  get_local_addresses only_ipv4 = elim local_addresses [
    | none ↦ throw system_error
    | some addresses ↦ ok (keep_addresses only_ipv4 [] addresses)
  ]
