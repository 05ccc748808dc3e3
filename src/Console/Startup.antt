-- ===== src/Console/Startup.antt =====
-- What the setup of `main` hands to its objects.
use text.Mathlib.Text.{◌==◌}
use micro_tcp.Common.{
  ℕ, Bool, true, List, [], ◌∷◌, Option, none, some, ◌≡◌, refl, ◌∙◌, String, Result, ok, throw,
  Exception, option_error, xml_parser_error, ptree_error, ap, ◌>>=◌, if◌then◌else◌, arith,
}
use micro_tcp.World.{World}
use micro_tcp.SecureData.{
  SecureData, Context, Loader, server_context, default_workarounds, no_tlsv1, no_tlsv1_1, no_sslv2,
  no_sslv3, single_dh_use, secure_data,
}
use micro_tcp.Console.Setup.{
  Setup, Prepared, or_throw, read_options, read_config, read_secure_data, prepare,
}

-- The context of the server: SSL 2 and 3 and TLS 1.0 and 1.1 are off, every Diffie-Hellman key is used once,
-- the four files of the configuration were taken, and the private key was opened with the password
-- of the configuration, unless that is empty.
pub record IsSecured (l : Loader) (w : World) (d : SecureData) (c : Context) : Type 0 where
  pub options :
      c.options
      ≡ default_workarounds ∷ no_tlsv1 ∷ no_tlsv1_1 ∷ no_sslv2 ∷ no_sslv3 ∷ single_dh_use ∷ []
  pub password :
      c.password
      ≡ (if d.rsa_private_key_passphrase == "" then none else some d.rsa_private_key_passphrase)
  pub chain : c.chain ≡ some d.certificate_chain_file
  pub certificate : c.certificate ≡ some d.certificate_file
  pub private_key : c.private_key ≡ some d.rsa_private_key_file
  pub dh : c.dh ≡ some d.temp_diffie_hellman_parameters_file
  pub chain_taken : l.takes_chain w d.certificate_chain_file ≡ true
  pub certificate_taken : l.takes_certificate w d.certificate_file ≡ true
  pub private_key_taken : l.takes_private_key w c.password d.rsa_private_key_file ≡ true
  pub dh_taken : l.takes_dh w d.temp_diffie_hellman_parameters_file ≡ true

server_context-IsSecured :
    (l : Loader) (w : World) (d : SecureData) (c : Context)
    → server_context l w d ≡ ok c
    → IsSecured l w d c
unfolding server_context
server_context-IsSecured l w d c e = ground arith

-- What stands in the configuration below the node `Config`.
pub record IsConfigured (u : Setup) (config : u.Tree) (c : Prepared) (d : SecureData) : Type 0 where
  pub address : u.get_string config "Server.listen_address" ≡ some c.address
  pub port : u.get_unsigned_short config "Server.listen_port" ≡ some c.port
  pub certificate : u.get_string config "Server.certificate_file" ≡ some d.certificate_file
  pub chain : u.get_string config "Server.certificate_chain_file" ≡ some d.certificate_chain_file
  pub dh :
      u.get_string config "Server.diffie_hellman_parameter_file"
      ≡ some d.temp_diffie_hellman_parameters_file
  pub private_key : u.get_string config "Server.rsa_private_key_file" ≡ some d.rsa_private_key_file
  pub password :
      u.get_string config "Server.rsa_private_key_password" ≡ some d.rsa_private_key_passphrase

or_throw-eq-ok :
    {A : Type 0} (e : Exception) (o : Option A) {a : A} → or_throw e o ≡ ok a → o ≡ some a
or_throw-eq-ok e none h = cc
or_throw-eq-ok e (some x) h = cc

-- A chain that ends in a value went through its first link.
went_through :
    {A B : Type 0} {rest : A → Result B} {end : B} (first : Result A)
    → first >>= rest ≡ ok end
    → (value : A) × (first ≡ ok value) × (rest value ≡ ok end)
went_through (throw e) ends = cc
went_through (ok value) ends = (value, refl, ends)

abbrev IsRead : (u : Setup) → u.Tree → SecureData → Type 0
IsRead u config d =
    (u.get_string config "Server.certificate_file" ≡ some d.certificate_file)
    × (u.get_string config "Server.certificate_chain_file" ≡ some d.certificate_chain_file)
    × (u.get_string config "Server.diffie_hellman_parameter_file"
        ≡ some d.temp_diffie_hellman_parameters_file)
    × (u.get_string config "Server.rsa_private_key_file" ≡ some d.rsa_private_key_file)
    × (u.get_string config "Server.rsa_private_key_password" ≡ some d.rsa_private_key_passphrase)

read_secure_data-IsRead :
    (u : Setup) (config : u.Tree) (d : SecureData)
    → read_secure_data u config ≡ ok d
    → IsRead u config d
unfolding read_secure_data secure_data
read_secure_data-IsRead u config d e = ground arith

-- The setup, where the file of the configuration is at `path`, `tree` is what it holds, and `config` is
-- its node `Config`.
pub record IsSetUp (u : Setup) (arguments : List String) (c : Prepared) (d : SecureData)
    (path : String) (tree config : u.Tree) : Type 0 where
  pub given :
      (help : Bool) × (u.parse_command_line arguments
        ≡ some (record { help = help; config = some path }))
  pub read : u.read_xml c.world path ≡ some tree
  pub child : u.get_child tree "Config" ≡ some config
  pub configured : IsConfigured u config c d
  pub secured : IsSecured u.loader c.world d c.context

read_options-eq-ok :
    (u : Setup) (arguments : List String) (w : World) {path : String} {w' : World}
    → read_options u arguments w ≡ ok (path, w')
    → (help : Bool) × (u.parse_command_line arguments
        ≡ some (record { help = help; config = some path }))
unfolding read_options
read_options-eq-ok u arguments w {path} e =
    let (vm, e1, f1) = went_through (or_throw option_error (u.parse_command_line arguments)) e in
    let (path', e2, f2) = went_through (or_throw option_error vm.config) f1 in
    let q : path' ≡ path = cc in
    (
      vm.help,
      or_throw-eq-ok option_error (u.parse_command_line arguments) e1
          ∙ ap (λ (o : Option String). some (record { help = vm.help; config = o }))
              (or_throw-eq-ok option_error vm.config e2 ∙ ap some q),
    )

read_config-eq-ok :
    (u : Setup) (path : String) (w : World) {config : u.Tree}
    → read_config u path w ≡ ok config
    → (tree : u.Tree) × (u.read_xml w path ≡ some tree) × (u.get_child tree "Config" ≡ some config)
unfolding read_config
read_config-eq-ok u path w e =
    let (tree, e1, f1) = went_through (or_throw xml_parser_error (u.read_xml w path)) e in
    (
      tree,
      or_throw-eq-ok xml_parser_error (u.read_xml w path) e1,
      or_throw-eq-ok ptree_error (u.get_child tree "Config") f1,
    )

-- The steps of the setup, put together.
IsSetUp-steps :
    (u : Setup) (arguments : List String) (w w' : World) (path address : String) (config : u.Tree)
    (port : ℕ) (d : SecureData) (context : Context) {c : Prepared}
    → read_options u arguments w ≡ ok (path, w')
    → read_config u path w' ≡ ok config
    → or_throw ptree_error (u.get_string config "Server.listen_address") ≡ ok address
    → or_throw ptree_error (u.get_unsigned_short config "Server.listen_port") ≡ ok port
    → read_secure_data u config ≡ ok d
    → server_context u.loader w' d ≡ ok context
    → record { address = address; port = port; context = context; world = w' } ≡ c
    → (d : SecureData) × (path : String) × (tree : u.Tree) × (config : u.Tree) × IsSetUp u arguments
        c d path tree config
IsSetUp-steps u arguments w w' path address config port d context e1 e2 e3 e4 e5 e6 e =
    let (tree, read, child) = read_config-eq-ok u path w' e2 in
    let (certificate, chain, dh, key, password) = read_secure_data-IsRead u config d e5 in
    rw (← e) (
      d,
      path,
      tree,
      config,
      record {
        given = read_options-eq-ok u arguments w e1;
        read = read;
        child = child;
        configured = record {
          address = or_throw-eq-ok ptree_error (u.get_string config "Server.listen_address") e3;
          port = or_throw-eq-ok ptree_error (u.get_unsigned_short config "Server.listen_port") e4;
          certificate = certificate;
          chain = chain;
          dh = dh;
          private_key = key;
          password = password;
        };
        secured = server_context-IsSecured u.loader w' d context e6;
      },
    )

-- Whatever the arguments, the configuration and the files are: if the setup ends without an exception,
-- then the address, the port and the files and password of the TLS context are those that the
-- configuration names, the files were taken, SSL 2 and 3 and TLS 1.0 and 1.1 are off in the context,
-- and every Diffie-Hellman key is used once.
pub prepare_lem :
    (u : Setup) (arguments : List String) (w : World) (c : Prepared)
    → prepare u arguments w ≡ ok c
    → (d : SecureData) × (path : String) × (tree : u.Tree) × (config : u.Tree) × IsSetUp u arguments
        c d path tree config
unfolding prepare
prepare_lem u arguments w c e =
    let ((path, w'), e1, f1) = went_through (read_options u arguments w) e in
    let (config, e2, f2) = went_through (read_config u path w') f1 in
    let (address, e3, f3) =
      went_through (or_throw _ (u.get_string config "Server.listen_address")) f2 in
    let (port, e4, f4) =
      went_through (or_throw _ (u.get_unsigned_short config "Server.listen_port")) f3 in
    let (d, e5, f5) = went_through (read_secure_data u config) f4 in
    let (context, e6, f6) = went_through (server_context u.loader w' d) f5 in
    IsSetUp-steps u arguments w w' path address config port d context e1 e2 e3 e4 e5 e6 (cc f6)
