-- ===== src/Console/Setup.antt =====
-- The lines of `main` in front of its objects: the options, the configuration, and the TLS context of
-- the server; and the destruction of its objects.
use micro_tcp.Common.{
  ℕ, Bool, List, [], ◌∷◌, Option, none, some, String, Result, ok, throw, Exception, option_error,
  xml_parser_error, ptree_error, ◌>>=◌, if◌then◌else◌,
}
use micro_tcp.World.{World, lit, cout, print}
use micro_tcp.Platform.{Platform}
use micro_tcp.IoManager
use micro_tcp.IoManager.{Thread}
use micro_tcp.Server
use micro_tcp.SecureData.{SecureData, secure_data, Context, Loader, server_context}
use micro_tcp.Console.{App, server_of}

-- `boost::program_options::variables_map`, for the options that `main` adds.
pub record Variables : Type 0 where
  pub help : Bool
  pub config : Option String

-- What `main` takes from Boost for its setup. `parse_command_line` throws on arguments that are not
-- the options; `read_xml` on a file that cannot be read or is no XML; the getters on a path that
-- is not in the tree, or on a value of another type.
pub record Setup : Type 1 where
  pub parse_command_line : List String → Option Variables
  pub Tree : Type 0
  pub read_xml : World → String → Option Tree
  pub get_child : Tree → String → Option Tree
  pub get_string : Tree → String → Option String
  pub get_unsigned_short : Tree → String → Option ℕ
  pub loader : Loader

abbrev pub or_throw {ℓ} : {A : Type ℓ} → Exception → Option A → Result A
or_throw e none = throw e
or_throw e (some a) = ok a

-- What the setup comes to: the values of the configuration that are used behind it.
pub record Prepared : Type 0 where
  pub address : String
  pub port : ℕ
  pub context : Context
  pub world : World

module _ (u : Setup) where
  open u use {parse_command_line, Tree, read_xml, get_child, get_string, get_unsigned_short, loader}

  -- `notify` throws if the option `config`, which is required, was not given.
  unfoldable pub read_options : List String → World → Result (String × World)
  read_options arguments w = do
    vm ← or_throw option_error (parse_command_line arguments)
    let w' = if vm.help then print (cout (lit "This prints a help message!" ∷ [])) w else w
    config_path ← or_throw option_error vm.config
    ok (config_path, w')

  unfoldable pub read_config : String → World → Result Tree
  read_config config_path w = do
    config ← or_throw xml_parser_error (read_xml w config_path)
    or_throw ptree_error (get_child config "Config")

  unfoldable pub read_secure_data : Tree → Result SecureData
  read_secure_data config = do
    certificate_file ← or_throw ptree_error (get_string config "Server.certificate_file")
    chain_file ← or_throw ptree_error (get_string config "Server.certificate_chain_file")
    dh_file ← or_throw ptree_error (get_string config "Server.diffie_hellman_parameter_file")
    key_file ← or_throw ptree_error (get_string config "Server.rsa_private_key_file")
    password ← or_throw ptree_error (get_string config "Server.rsa_private_key_password")
    ok (secure_data certificate_file chain_file dh_file key_file password)

  unfoldable pub prepare : List String → World → Result Prepared
  unfolding read_options read_config read_secure_data
  prepare arguments w = do
    (config_path, w') ← read_options arguments w
    config ← read_config config_path w'
    address ← or_throw ptree_error (get_string config "Server.listen_address")
    port ← or_throw ptree_error (get_unsigned_short config "Server.listen_port")
    ssl_data ← read_secure_data config
    context ← server_context loader w' ssl_data
    ok (record { address = address; port = port; context = context; world = w' })

-- The destruction of the objects of `main` behind its return, the last one first. The client, which
-- is destroyed in front of the server, only lets go of the session that it may have.
unfoldable pub tear_down : (p : Platform) → App p → Result (List Thread)
tear_down p a = do s ← Server.destroy p (server_of p a); IoManager.destroy a.io_manager
