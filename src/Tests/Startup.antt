-- ===== src/Tests/Startup.antt =====
-- The setup of `main`.
use text.Mathlib.Text.{◌==◌}
use micro_tcp.Common.{
  Bool, true, false, [], ◌∷◌, some, none, ◌≡◌, refl, String, ok, throw, option_error, if◌then◌else◌,
}
use micro_tcp.SecureData.{
  SecureData, server_context, secure_data, default_workarounds, no_tlsv1, no_tlsv1_1, no_sslv2,
  no_sslv3, single_dh_use,
}
use micro_tcp.Console.Setup.{Setup, Prepared, prepare}
use micro_tcp.Console.Startup.{IsSetUp, prepare_lem}
use micro_tcp.Tests.Machine.{quiet}

-- A configuration of two nodes, the root and its child; every file is taken.
abbrev setup : Setup
setup = record {
  parse_command_line = λ arguments. some (record { help = false; config = some "config.xml" });
  Tree = Bool;
  read_xml = λ w path. some false;
  get_child = λ tree name. some true;
  get_string = λ tree name.
      if name == "Server.listen_address"
      then some "0.0.0.0"
      else if name == "Server.rsa_private_key_password"
      then some "secret"
      else some "file.pem";
  get_unsigned_short = λ tree name. some 1234;
  loader = record {
    takes_chain = λ w file. true;
    takes_certificate = λ w file. true;
    takes_private_key = λ w password file. true;
    takes_dh = λ w file. true;
  };
}

abbrev prepared : Prepared
prepared = record {
  address = "0.0.0.0";
  port = 1234;
  context = record {
    options =
        default_workarounds ∷ no_tlsv1 ∷ no_tlsv1_1 ∷ no_sslv2 ∷ no_sslv3 ∷ single_dh_use ∷ [];
    password = some "secret";
    chain = some "file.pem";
    certificate = some "file.pem";
    private_key = some "file.pem";
    dh = some "file.pem";
  };
  world = quiet;
}

prepare-setup : prepare setup [] quiet ≡ ok prepared
unfolding prepare server_context secure_data
prepare-setup = refl

-- Without a configuration the option for help ends in the exception of `notify`.
abbrev helping : Setup
helping = record setup {
  parse_command_line = λ arguments. some (record { help = true; config = none });
}

prepare-helping : prepare helping ("--help" ∷ []) quiet ≡ throw option_error
unfolding prepare
prepare-helping = refl

prepare_lem_example :
    (d : SecureData) × (path : String) × (tree : Bool) × (config : Bool) × IsSetUp setup [] prepared
      d path tree config
prepare_lem_example = prepare_lem setup [] quiet prepared prepare-setup
