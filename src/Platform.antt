-- ===== src/Platform.antt =====
-- What the program takes from Boost.Asio and from the machine, as an interface: error codes,
-- sockets, acceptors and addresses. The laws are those that Boost documents.
use micro_tcp.Common.{ℕ, Bool, false, not, List, false, String, Option, ◌≡◌}

-- `boost::asio::ip::tcp::endpoint`, an address and a port.
pub record Endpoint (A : Type 0) : Type 0 where
  pub address : A
  pub port : ℕ

pub record Platform : Type 1 where
  -- `boost::system::error_code`: its conversion to `bool`, and the comparisons that the code makes.
  pub ErrorCode : Type 0
  pub failed : ErrorCode → Bool
  pub is_operation_aborted : ErrorCode → Bool
  pub is_eof : ErrorCode → Bool
  pub is_connection_aborted : ErrorCode → Bool
  pub is_address_in_use : ErrorCode → Bool
  pub is_ssl_category : ErrorCode → Bool
  pub error_message : ErrorCode → String
  -- `boost::asio::ip::tcp::socket`. A socket is closed by `close` even where that gives an error.
  pub Socket : Type 0
  pub is_open : Socket → Bool
  pub cancel : Socket → ErrorCode × Socket
  pub close : Socket → ErrorCode × Socket
  pub cancel_keeps_open : (s : Socket) → is_open (cancel s).1 ≡ is_open s
  pub close_closes : (s : Socket) → is_open (close s).1 ≡ false
  -- `boost::asio::ip::address`.
  pub Address : Type 0
  pub from_string : String → ErrorCode × Address
  pub address_string : Address → String
  pub is_v4 : Address → Bool
  pub is_v6 : Address → Bool
  -- What the resolver finds for the name of the host; `none` where the calls for it throw.
  pub local_addresses : Option (List Address)
  -- `boost::asio::ip::tcp::acceptor`. Opening takes the protocol of an address.
  pub Acceptor : Type 0
  pub new_acceptor : Acceptor
  pub acceptor_is_open : Acceptor → Bool
  pub open_acceptor : Address → Acceptor → ErrorCode × Acceptor
  pub set_reuse_address : Acceptor → ErrorCode × Acceptor
  pub bind : Endpoint Address → Acceptor → ErrorCode × Acceptor
  pub listen : Acceptor → ErrorCode × Acceptor
  pub close_acceptor : Acceptor → ErrorCode × Acceptor
  pub new_acceptor_closed : acceptor_is_open new_acceptor ≡ false
  pub open_opens :
      (d : Address) (a : Acceptor)
      → acceptor_is_open a ≡ false
      → acceptor_is_open (open_acceptor d a).1 ≡ not (failed (open_acceptor d a).0)
  pub set_reuse_address_keeps_open :
      (a : Acceptor) → acceptor_is_open (set_reuse_address a).1 ≡ acceptor_is_open a
  pub bind_keeps_open :
      (e : Endpoint Address) (a : Acceptor) → acceptor_is_open (bind e a).1 ≡ acceptor_is_open a
  pub listen_keeps_open : (a : Acceptor) → acceptor_is_open (listen a).1 ≡ acceptor_is_open a
  pub close_acceptor_closes : (a : Acceptor) → acceptor_is_open (close_acceptor a).1 ≡ false
  -- `boost::lexical_cast<unsigned short>`; `none` is its exception `bad_lexical_cast`.
  pub to_port : String → Option ℕ
  -- The value of an uninitialised variable, any number, but here the same one at each use.
  pub indeterminate : ℕ
