-- ===== src/Stream.antt =====
-- `std::stringstream` of the C++ standard library, in the "C" locale, as far as
-- include/micro_tcp/message.cpp uses it: formatted output padded to a field width, the copies
-- through `std::istream_iterator<char>` and `std::ostream_iterator<char>`, and the extraction of a
-- `std::size_t` of 64 bits.
pub mod Decimal
pub mod Laws
use micro_tcp.Common.{
  ℕ, zero, suc, ◌+◌, ◌-◌, ◌*◌, ◌/◌, ◌%◌, ◌^◌, Bool, true, false, ◌&&◌, ◌||◌, List, [], ◌∷◌, ◌++◌,
  Option, none, some, Bytes, length, replicate, ltb, leb, ◌==◌, if◌then◌else◌,
}

abbrev pub size_mod : ℕ
size_mod = 2 ^ 64

abbrev pub space : ℕ
space = 0x20

-- What is written and not yet read, the field width of the next output, the flag `skipws`, `good()`.
pub record Stream : Type 0 where
  pub chars : Bytes
  pub width : ℕ
  pub skipws : Bool
  pub good : Bool

abbrev pub empty_stream : Stream
empty_stream = record { chars = []; width = 0; skipws = true; good = true }

abbrev pub noskipws : Stream → Stream
noskipws st = record st { skipws = false }

abbrev pub setw : ℕ → Stream → Stream
setw n st = record st { width = n }

-- Formatted output: blanks on the left up to the width, which is then reset.
unfoldable pub put_text : Bytes → Stream → Stream
put_text t st =
    if st.good
    then record st { chars = st.chars ++ (replicate (st.width - length t) space ++ t); width = 0 }
    else st

-- The decimal digits of a number, the last one first; `fuel` bounds their number.
abbrev pub digit : ℕ → ℕ
digit d = b'0' + d

pub digits : ℕ → ℕ → Bytes
digits zero n = []
digits (suc fuel) n =
    let rest = digits fuel (n / 10) in
    if ltb n 10 then digit n ∷ [] else rest ++ digit (n % 10) ∷ []

-- A `std::size_t` has at most twenty digits.
unfoldable pub decimal : ℕ → Bytes
unfolding digits
decimal n = digits 20 n

unfoldable pub put_number : ℕ → Stream → Stream
unfolding put_text decimal
put_number n = put_text (decimal n)

-- `std::copy` into an `std::ostream_iterator<char>`: one formatted output for each character.
unfoldable pub copy_out : Bytes → Stream → Stream
unfolding put_text
copy_out [] st = st
copy_out (c ∷ cs) st = copy_out cs (put_text (c ∷ []) st)

-- `std::isspace` in the "C" locale.
unfoldable pub is_space : ℕ → Bool
is_space c = (c == space) || (leb 9 c && leb c 13)

pub skip_spaces : Bytes → Bytes
unfolding is_space
skip_spaces [] = []
skip_spaces (c ∷ cs) = let rest = skip_spaces cs in if is_space c then rest else c ∷ cs

pub without_spaces : Bytes → Bytes
unfolding is_space
without_spaces [] = []
without_spaces (c ∷ cs) = let rest = without_spaces cs in if is_space c then rest else c ∷ rest

-- `std::copy` from an `std::istream_iterator<char>`: white space is lost unless `noskipws` was set.
unfoldable pub copy_in : Stream → Bytes
unfolding without_spaces
copy_in st = if st.good then (if st.skipws then without_spaces st.chars else st.chars) else []

unfoldable pub is_digit : ℕ → Bool
is_digit c = leb b'0' c && leb c b'9'

-- The digits at the front, read as a number behind `n`; `none` if there is none.
unfoldable pub scan : ℕ → Bytes → ℕ
unfolding is_digit
scan n [] = n
scan n (c ∷ cs) = let rest = scan (n * 10 + (c - b'0')) cs in if is_digit c then rest else n

-- The value that is stored for digits behind an optional sign: 0 if there is no digit, the largest
-- value on overflow, and the negation modulo 2^64 behind a minus sign.
pub convert : Bool → Bytes → ℕ
convert negative [] = 0
convert negative (c ∷ cs) =
    let v = scan 0 (c ∷ cs) in
    if is_digit c
    then (if ltb v size_mod
        then (if negative then (size_mod - v) % size_mod else v)
        else size_mod - 1)
    else 0

pub signed : Bytes → ℕ
signed [] = 0
signed (c ∷ cs) =
    if c == b'-'
    then convert true cs
    else if c == b'+'
    then convert false cs
    else convert false (c ∷ cs)

pub stored : ℕ → Bytes → ℕ
stored old [] = old
stored old (c ∷ cs) = signed (c ∷ cs)

-- `st >> x`: white space is skipped first. If the stream is not good or nothing is left, then the
-- sentry fails and the variable keeps its value.
unfoldable pub get_number : Stream → ℕ → ℕ
unfolding stored skip_spaces signed convert scan
get_number st old = if st.good then stored old (skip_spaces st.chars) else old
