-- ===== src/SecureData.antt =====
-- include/micro_tcp/secure_data.hpp, and what `main` makes of it: the TLS context of the server. A
-- context is the calls that were made on it; Boost.Asio and OpenSSL read it.
use text.Mathlib.Text.{◌==◌}
use micro_tcp.Common.{
  Bool, not, List, [], ◌∷◌, Option, none, some, String, Result, ok, throw, system_error, ◌>>=◌,
  if◌then◌else◌,
}
use micro_tcp.World.{World}

pub record SecureData : Type 0 where
  pub certificate_file : String
  pub certificate_chain_file : String
  pub temp_diffie_hellman_parameters_file : String
  pub rsa_private_key_file : String
  pub rsa_private_key_passphrase : String

-- The constructor, in the order of its parameters.
unfoldable pub secure_data : String → String → String → String → String → SecureData
secure_data certificate_file certificate_chain_file temp_diffie_hellman_parameters_file
      rsa_private_key_file rsa_private_key_passphrase =
    record {
      certificate_file = certificate_file;
      certificate_chain_file = certificate_chain_file;
      temp_diffie_hellman_parameters_file = temp_diffie_hellman_parameters_file;
      rsa_private_key_file = rsa_private_key_file;
      rsa_private_key_passphrase = rsa_private_key_passphrase;
    }

-- The call of `rsa_private_key_passphrase_callback_`, which reads the member of its object.
unfoldable pub rsa_private_key_passphrase_callback : SecureData → String
rsa_private_key_passphrase_callback d = d.rsa_private_key_passphrase

pub data TlsOption : Type 0 where
  default_workarounds no_tlsv1 no_tlsv1_1 no_sslv2 no_sslv3 single_dh_use : TlsOption

-- `boost::asio::ssl::context`: its options, what the password callback answers, and the files that were
-- loaded.
pub record Context : Type 0 where
  pub options : List TlsOption
  pub password : Option String
  pub chain : Option String
  pub certificate : Option String
  pub private_key : Option String
  pub dh : Option String

abbrev pub context : Context
context = record {
  options = [];
  password = none;
  chain = none;
  certificate = none;
  private_key = none;
  dh = none;
}

-- Which files OpenSSL takes; a private key may want the answer of the password callback. A file that
-- it does not take makes the call throw.
pub record Loader : Type 0 where
  pub takes_chain : World → String → Bool
  pub takes_certificate : World → String → Bool
  pub takes_private_key : World → Option String → String → Bool
  pub takes_dh : World → String → Bool

abbrev pub load : Bool → Context → Result Context
load taken c = if taken then ok c else throw system_error

-- The calls of `main` on `server_context`.
unfoldable pub server_context : Loader → World → SecureData → Result Context
unfolding rsa_private_key_passphrase_callback
server_context l w d = do
  let c1 = record context {
    options =
        default_workarounds ∷ no_tlsv1 ∷ no_tlsv1_1 ∷ no_sslv2 ∷ no_sslv3 ∷ single_dh_use ∷ [];
  }
  let c2 =
      if not (d.rsa_private_key_passphrase == "")
      then record c1 { password = some (rsa_private_key_passphrase_callback d) }
      else c1
  c3 ←
      load (l.takes_chain w d.certificate_chain_file)
        (record c2 { chain = some d.certificate_chain_file })
  c4 ←
      load (l.takes_certificate w d.certificate_file)
        (record c3 { certificate = some d.certificate_file })
  c5 ←
      load (l.takes_private_key w c4.password d.rsa_private_key_file)
        (record c4 { private_key = some d.rsa_private_key_file })
  load (l.takes_dh w d.temp_diffie_hellman_parameters_file)
      (record c5 { dh = some d.temp_diffie_hellman_parameters_file })
