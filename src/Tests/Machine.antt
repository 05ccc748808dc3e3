-- ===== src/Tests/Machine.antt =====
-- A machine for the tests: the interface of Platform.antt over numbers and Booleans.
use micro_tcp.Common.{ℕ, Bool, true, false, not, [], ◌∷◌, none, some, refl, ◌==◌, if◌then◌else◌}
use micro_tcp.Platform.{Platform}
use micro_tcp.World.{World}

-- Error code 0 is success; a socket and an acceptor are told by whether they are open; an address
-- is the version of its protocol.
abbrev pub machine : Platform
machine = record {
  ErrorCode = ℕ;
  failed = λ c. not (c == 0);
  is_operation_aborted = λ c. c == 1;
  is_eof = λ c. c == 2;
  is_connection_aborted = λ c. c == 3;
  is_address_in_use = λ c. c == 4;
  is_ssl_category = λ c. c == 5;
  error_message = λ c. "failed";
  Socket = Bool;
  is_open = λ s. s;
  cancel = λ s. (if s then 0 else 6, s);
  close = λ s. (0, false);
  cancel_keeps_open = λ s. refl;
  close_closes = λ s. refl;
  Address = ℕ;
  from_string = λ text. (0, 4);
  address_string = λ a. if a == 4 then "0.0.0.0" else "::1";
  is_v4 = λ a. a == 4;
  is_v6 = λ a. a == 6;
  local_addresses = some (6 ∷ 4 ∷ []);
  Acceptor = Bool;
  new_acceptor = false;
  acceptor_is_open = λ a. a;
  open_acceptor = λ d a. (0, true);
  set_reuse_address = λ a. (0, a);
  bind = λ e a. (if e.port == 80 then 4 else 0, a);
  listen = λ a. (0, a);
  close_acceptor = λ a. (0, false);
  new_acceptor_closed = refl;
  open_opens = λ d a h. refl;
  set_reuse_address_keeps_open = λ a. refl;
  bind_keeps_open = λ e a. refl;
  listen_keeps_open = λ a. refl;
  close_acceptor_closes = λ a. refl;
  to_port = λ text. some 4000;
  indeterminate = 7;
}

-- No file is there, every path can be written, and nothing has been printed.
abbrev pub quiet : World
quiet = record { files = λ path. none; is_writable = λ path. true; output = [] }
