-- ===== src/Common/Results.antt =====
-- Calls that may end in a C++ exception.

-- `length_error` is `std::length_error`, thrown by `std::vector::resize`.
-- `system_error` is `std::system_error` or `boost::system::system_error`, `bad_lexical_cast` is Boost's.
-- `terminate` stands for a call of `std::terminate`, which ends the program.
pub data Exception : Type 0 where
  length_error system_error bad_lexical_cast terminate option_error xml_parser_error ptree_error :
      Exception

pub data Result {ℓ} (A : Type ℓ) : Type ℓ where
  ok : A → Result A
  throw : Exception → Result A

infixl 5 ◌>>=◌
abbrev pub ◌>>=◌ {ℓ κ} : {A : Type ℓ} {B : Type κ} → Result A → (A → Result B) → Result B
ok a >>= f = f a
throw e >>= f = throw e
