-- ===== src/Stream/Laws.antt =====
-- How the characters of a stream are copied out and read as a number.
use micro_tcp.Common.{
  ℕ, zero, suc, ◌-◌, ◌%◌, ◌<◌, ◌≡◌, refl, Bool, true, false, [], ◌∷◌, ◌++◌, append-nil,
  append_assoc, arith, Bytes, replicate, All, ltb-true, if◌then◌else◌,
}
use micro_tcp.Stream.{
  copy_out, is_space, skip_spaces, scan, convert, signed, stored, is_digit, get_number, space,
  size_mod, empty_stream, setw,
}
use micro_tcp.Stream.Decimal.{IsDigit}

copy_out_plain :
    (cs t : Bytes) (skip : Bool)
    → copy_out cs (record { chars = t; width = 0; skipws = skip; good = true })
      ≡ record { chars = t ++ cs; width = 0; skipws = skip; good = true }
unfolding copy_out
copy_out_plain [] t skip = rw append-nil
copy_out_plain (c ∷ cs) t skip = rw (copy_out_plain cs (t ++ c ∷ []) skip) (rw append_assoc)

-- The width pads the first character only.
pub copy_out_padded :
    (c : ℕ) (cs : Bytes) (w : ℕ)
    → copy_out (c ∷ cs) (setw w empty_stream)
      ≡ record { chars = replicate (w - 1) space ++ c ∷ cs; width = 0; skipws = true; good = true }
unfolding copy_out
copy_out_padded c cs w =
    rw (copy_out_plain cs (replicate (w - 1) space ++ c ∷ []) true) (rw append_assoc)

pub skip_spaces_padding : (k : ℕ) (t : Bytes) → skip_spaces (replicate k space ++ t) ≡ skip_spaces t
unfolding skip_spaces
skip_spaces_padding zero t = refl
skip_spaces_padding (suc k) t = skip_spaces_padding k t

abbrev pub IsBlank : Bytes → Type 0
IsBlank = All (λ c. is_space c ≡ true)

pub skip_spaces_blank : (t : Bytes) → IsBlank t → skip_spaces t ≡ []
unfolding skip_spaces
skip_spaces_blank [] h = refl
skip_spaces_blank (c ∷ t) (hc, h) = rw hc (skip_spaces_blank t h)

-- What an extraction into a variable that holds `old` gives for these characters.
abbrev pub extract : ℕ → Bytes → ℕ
extract old t = stored old (skip_spaces t)

pub get_number-extract :
    (t : Bytes) (w old : ℕ) (skip : Bool)
    → get_number (record { chars = t; width = w; skipws = skip; good = true }) old ≡ extract old t
unfolding get_number
get_number-extract t w old skip = refl

pub extract_padding : (k old : ℕ) (t : Bytes) → extract old (replicate k space ++ t) ≡ extract old t
extract_padding k old t = rw (skip_spaces_padding k t)

pub extract_blank : (old : ℕ) (t : Bytes) → IsBlank t → extract old t ≡ old
unfolding stored
extract_blank old t h = rw (skip_spaces_blank t h)

skip_spaces_digit : (c : ℕ) (cs : Bytes) → IsDigit c → skip_spaces (c ∷ cs) ≡ c ∷ cs
unfolding skip_spaces
skip_spaces_digit c cs h = ground arith

is_digit_lem : (c : ℕ) → IsDigit c → is_digit c ≡ true
unfolding is_digit
is_digit_lem c h = ground arith

convert_digits :
    (negative : Bool) (c : ℕ) (cs : Bytes)
    → IsDigit c
    → scan 0 (c ∷ cs) < size_mod
    → convert negative (c ∷ cs)
      ≡ (if negative then (size_mod - scan 0 (c ∷ cs)) % size_mod else scan 0 (c ∷ cs))
unfolding convert
convert_digits negative c cs h lt = rw (is_digit_lem c h, ltb-true _ _ lt)

signed_digits : (c : ℕ) (cs : Bytes) → IsDigit c → signed (c ∷ cs) ≡ convert false (c ∷ cs)
unfolding signed
signed_digits c cs h = ground arith

-- Digits that spell a value below 2^64 are read as that value.
pub extract_digits :
    (old c : ℕ) (cs : Bytes)
    → IsDigit c
    → scan 0 (c ∷ cs) < size_mod
    → extract old (c ∷ cs) ≡ scan 0 (c ∷ cs)
unfolding stored
extract_digits old c cs h lt =
    rw (skip_spaces_digit c cs h, signed_digits c cs h) (convert_digits false c cs h lt)

-- Behind a minus sign they are read as its negation modulo 2^64.
pub extract_minus :
    (old c : ℕ) (cs : Bytes)
    → IsDigit c
    → 0 < scan 0 (c ∷ cs)
    → scan 0 (c ∷ cs) < size_mod
    → extract old (b'-' ∷ c ∷ cs) ≡ size_mod - scan 0 (c ∷ cs)
unfolding stored skip_spaces signed
extract_minus old c cs h p lt = rw (convert_digits true c cs h lt) (omega arith)
