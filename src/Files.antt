-- ===== src/Files.antt =====
-- include/micro_tcp/files.hpp: a file as the content of a message.
use text.Mathlib.Text.{◌==◌ as str_eq}
use text.Mathlib.TextPositions.{eq_refl}
use micro_tcp.Common.{
  Bool, true, false, [], ◌∷◌, Option, none, some, String, ◌≡◌, refl, ap, Bytes, if◌then◌else◌, take,
  drop, length, ◌++◌, ◌-◌, ℕ, replicate, arith, length-append, length-take, length-replicate,
  take_all, drop_all, append-nil, ◌∙◌,
}
use micro_tcp.World.{World, lit, cerr, print, store}
use micro_tcp.Message.{Message}

-- `std::ifstream` on an opened file: its bytes, and the position of the next read.
pub record FileStream : Type 0 where
  pub bytes : Bytes
  pub position : ℕ

unfoldable pub open_stream : Bytes → FileStream
open_stream b = record { bytes = b; position = 0 }

unfoldable pub seek_begin : FileStream → FileStream
seek_begin f = record f { position = 0 }

unfoldable pub seek_end : FileStream → FileStream
seek_end f = record f { position = length f.bytes }

unfoldable pub tellg : FileStream → ℕ
tellg f = f.position

-- `read` into a buffer of the size `length buffer`: the bytes from the position on, at most as many as
-- the buffer holds, replace its first ones.
unfoldable pub read : FileStream → Bytes → Bytes
read f buffer =
    let got = take (length buffer) (drop f.position f.bytes) in got ++ drop (length got) buffer

-- `std::vector<char>::resize` to the size of a file, which is taken not to exceed `max_size`.
unfoldable pub fit : ℕ → Bytes → Bytes
fit n b = take n b ++ replicate (n - length b) 0

-- What an opened file does to the message; `none` is a file that cannot be opened.
unfoldable pub read_opened : String → Message → World → Option Bytes → Bool × Message × World
unfolding open_stream seek_begin seek_end tellg read fit
read_opened path m w (some b) =
    let at_end = seek_end (open_stream b) in
    let m1 = record m { content_buffer = fit (tellg at_end) m.content_buffer } in
    let at_begin = seek_begin at_end in
    (true, record m1 { content_buffer = read at_begin m1.content_buffer }, w)
read_opened path m w none = (
  false,
  m,
  print (cerr (lit "read_file | The file (" ∷ lit path ∷ lit ") could not be read!" ∷ [])) w,
)

unfoldable pub read_file : String → Message → World → Bool × Message × World
unfolding read_opened
read_file path m w = read_opened path m w (w.files path)

unfoldable pub write_file : String → Message → World → Bool × World
write_file path m w = if w.is_writable path then (true, store path m.content_buffer w) else (
  false,
  print (cerr (lit "write_file | The file (" ∷ lit path ∷ lit ") could not be written!" ∷ [])) w,
)

length-fit : (n : ℕ) (b : Bytes) → length (fit n b) ≡ n
unfolding fit
length-fit n b = omega (arith, length-append {0}, length-take n b, length-replicate {0})

-- From its start a file is read whole into a buffer of its size, whatever the buffer held.
read-whole :
    (b buffer : Bytes)
    → length buffer ≡ length b
    → read (seek_begin (seek_end (open_stream b))) buffer ≡ b
unfolding read seek_begin seek_end open_stream
read-whole b buffer e =
    rw (take_all b (length buffer) (omega arith), drop_all buffer (length b) (omega arith))
      (append-nil b)

read_opened_lem :
    (path : String) (m : Message) (w : World) (b : Bytes)
    → read_opened path m w (some b) ≡ (true, record m { content_buffer = b }, w)
unfolding read_opened tellg
read_opened_lem path m w b =
    rw (read-whole b (fit (length b) m.content_buffer) (length-fit (length b) m.content_buffer))
      refl

pub read_file_lem :
    (path : String) (m : Message) (w : World) (b : Bytes)
    → w.files path ≡ some b
    → read_file path m w ≡ (true, record m { content_buffer = b }, w)
unfolding read_file
read_file_lem path m w b e = ap (read_opened path m w) e ∙ read_opened_lem path m w b

-- Reading changes no file.
pub read_file-files :
    (path : String) (m : Message) (w : World) → (read_file path m w).2.files ≡ w.files
unfolding read_file read_opened
read_file-files path m w = opened (w.files path)
  where
    opened : (o : Option Bytes) → (read_opened path m w o).2.files ≡ w.files
    opened none = refl
    opened (some b) = refl

-- What is written to a writable path is read back into any message, whose header buffer stays, and
-- any file of another path is as before.
pub read_file-write_file :
    (path other : String) (m n : Message) (w : World)
    → w.is_writable path ≡ true
    → str_eq other path ≡ false
    → let (done, w') = write_file path m w in
      (done ≡ true)
      × (read_file path n w' ≡ (true, record n { content_buffer = m.content_buffer }, w'))
      × (w'.files other ≡ w.files other)
unfolding write_file store
read_file-write_file path other m n w h e =
    let w' = store path m.content_buffer w in
    rw h (refl, read_file_lem path n w' m.content_buffer (rw (eq_refl path) refl), rw e refl)
