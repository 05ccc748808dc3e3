-- ===== src/Message.antt =====
-- include/micro_tcp/message.hpp and message.cpp: the two buffers of a message, and the header of
-- 28 bytes, eighteen magic bytes and the content's size in ten columns.
--
-- A `char` is its code. The buffers are vectors, so capacity (`shrink_to_fit`) is left out, and an
-- allocation that the vector's `max_size` allows succeeds. `old` is the value that the variable
-- `content_length` happens to have when `get_header_buffer_content_length` declares it.
pub mod Header
pub mod Content
use micro_tcp.Common.{
  ℕ, ◌+◌, ◌-◌, ◌^◌, [], ◌++◌, Bytes, codes, length, take, drop, replicate, Bool, not, leb, ◌==◌,
  if◌then◌else◌, Result, ok, throw, Exception, length_error, ◌>>=◌,
}
use micro_tcp.Stream.{
  empty_stream, noskipws, setw, put_number, copy_in, copy_out, get_number, Stream,
}

abbrev pub magic_numbers : Bytes
magic_numbers = codes "/broekman/tcp/1.0/"

abbrev pub content_length_digits10 : ℕ
content_length_digits10 = 10

pub record Message : Type 0 where
  pub header_buffer : Bytes
  pub content_buffer : Bytes

abbrev pub default_header_length : ℕ
default_header_length = length magic_numbers + content_length_digits10

-- `std::vector<char>::max_size`, beyond which `resize` throws.
abbrev pub max_size : ℕ
max_size = 2 ^ 63 - 1

-- `std::vector<char>::resize`: cut, or filled up with zero bytes.
pub resize : ℕ → Bytes → Result Bytes
resize n b =
    if leb n max_size then ok (take n b ++ replicate (n - length b) 0) else throw length_error

unfoldable pub prepare_header_buffer_write : Message → Message
prepare_header_buffer_write m =
    let buffer =
      put_number (length m.content_buffer) (setw content_length_digits10 (noskipws empty_stream)) in
    record m { header_buffer = magic_numbers ++ copy_in buffer }

unfoldable pub get_header_buffer_content_length : ℕ → Message → ℕ
get_header_buffer_content_length old m =
    let buffer =
      copy_out (drop (length magic_numbers) m.header_buffer)
        (setw content_length_digits10 empty_stream) in
    if not (length m.header_buffer == default_header_length)
    then 0
    else if buffer.good
    then get_number buffer old
    else 0

unfoldable pub prepare_content_buffer_write : ℕ → Message → Message
prepare_content_buffer_write old m =
    if not (length m.content_buffer == get_header_buffer_content_length old m)
    then prepare_header_buffer_write m
    else m

unfoldable pub clear_header_buffer : Message → Message
clear_header_buffer m = record m { header_buffer = [] }

unfoldable pub clear_content_buffer : Message → Message
clear_content_buffer m = record m { content_buffer = [] }

unfoldable pub clear : Message → Message
unfolding clear_header_buffer clear_content_buffer
clear m = clear_content_buffer (clear_header_buffer m)

-- The new size is a constant below `max_size`, so that this `resize` does not throw.
unfoldable pub prepare_header_buffer_read : Message → Message
unfolding clear_header_buffer
prepare_header_buffer_read m =
    let c = clear_header_buffer m in
    record c {
      header_buffer =
          take default_header_length c.header_buffer
          ++ replicate (default_header_length - length c.header_buffer) 0;
    }

unfoldable pub prepare_content_buffer_read : ℕ → Message → Result Message
unfolding clear_content_buffer resize
prepare_content_buffer_read old m = do
  let c = clear_content_buffer m
  b ← resize (get_header_buffer_content_length old c) c.content_buffer
  ok (record c { content_buffer = b })

-- The overloads for `std::string` and for a buffer copy the same characters.
unfoldable pub set_content_buffer : Bytes → Message → Message
set_content_buffer content m = prepare_header_buffer_write (record m { content_buffer = content })

abbrev empty : Message
empty = record { header_buffer = []; content_buffer = [] }

-- The constructors `message()`, `message(const std::string&)` and `message(const buffer_type&)`.
unfoldable pub default_message : Message
default_message = prepare_header_buffer_read empty

unfoldable pub message : Bytes → Message
message content = set_content_buffer content empty
