-- ===== src/World.antt =====
-- What the program reads and writes outside its own objects, through the C++ standard library:
-- the files, which are regular files, and the lines sent to `std::cout` and `std::cerr`.
use text.Mathlib.Text.{◌==◌ as str_eq}
use micro_tcp.Common.{
  ℕ, Bool, ◌≡◌, true, false, List, [], ◌∷◌, ◌++◌, Option, some, String, Bytes, if◌then◌else◌,
}

-- A line is a sequence of pieces: a text, a decimal number, or the bytes of a buffer.
pub data Piece : Type 0 where
  lit : String → Piece
  number : ℕ → Piece
  raw : Bytes → Piece

pub data Line : Type 0 where
  cout cerr : List Piece → Line

-- `files` gives the contents of the files that can be opened for reading; `is_writable` says which
-- paths can be opened for writing.
pub record World : Type 0 where
  pub files : String → Option Bytes
  pub is_writable : String → Bool
  pub output : List Line

abbrev pub print : Line → World → World
print l w = record w { output = w.output ++ l ∷ [] }

-- The second world has the same file at a path as the first one, or none there as well.
abbrev pub KeepsFile : String → World → World → Type 0
KeepsFile path w w' = w'.files path ≡ w.files path

-- Opening for writing truncates, so that the file holds what is written.
unfoldable pub store : String → Bytes → World → World
store path b w = record w { files = λ p. if str_eq p path then some b else w.files p }

-- `std::string::empty` of the text that the pieces make.
unfoldable pub is_empty : List Piece → Bool
is_empty [] = true
is_empty (lit String.[] ∷ ps) = is_empty ps
is_empty (lit (String.◌∷◌ c s) ∷ ps) = false
is_empty (number n ∷ ps) = false
is_empty (raw [] ∷ ps) = is_empty ps
is_empty (raw (b ∷ bs) ∷ ps) = false
