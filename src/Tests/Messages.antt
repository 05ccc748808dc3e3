-- ===== src/Tests/Messages.antt =====
-- Messages, files and handlers.
use micro_tcp.Common.{
  ℕ, ◌^◌, ◌<◌, true, [], ◌≡◌, refl, codes, length, replicate, length-replicate, drop, arith, throw,
  length_error,
}
use micro_tcp.Stream.{copy_in, put_number, copy_out, get_number, is_space, scan, is_digit}
use micro_tcp.Stream.Laws.{IsBlank}
use micro_tcp.Message.{
  set_content_buffer, Message, message, default_message, default_header_length,
  prepare_header_buffer_write, get_header_buffer_content_length, prepare_content_buffer_read,
}
use micro_tcp.Message.Header.{
  content_length-prepare_header_buffer_write, content_length_too_long, content_length_ignores_magic,
  content_length_blank,
}
use micro_tcp.Message.Content.{prepare_content_buffer_read_minus}
use micro_tcp.Files.{read_file, write_file, read_file-write_file}
use micro_tcp.Tests.Machine.{quiet}

-- A message as the user fills it, without a header.
abbrev hello : Message
hello = record { header_buffer = []; content_buffer = codes "Hello" }

hello_header :
    (prepare_header_buffer_write hello).header_buffer ≡ codes "/broekman/tcp/1.0/         5"
unfolding prepare_header_buffer_write copy_in put_number
hello_header = refl

hello_length : get_header_buffer_content_length 7 (message (codes "Hello, world")) ≡ 12
unfolding get_header_buffer_content_length message set_content_buffer prepare_header_buffer_write
    copy_in put_number copy_out get_number
hello_length = refl

stray_length :
    get_header_buffer_content_length 7
      (record { header_buffer = codes "GET / HTTP/1.1 000042 x 17 z1"; content_buffer = [] })
    ≡ 0
unfolding get_header_buffer_content_length
stray_length = refl

content_length-prepare_header_buffer_write_example :
    (length (prepare_header_buffer_write hello).header_buffer ≡ default_header_length)
    × (get_header_buffer_content_length 7 (prepare_header_buffer_write hello)
        ≡ length hello.content_buffer)
    × ((prepare_header_buffer_write hello).content_buffer ≡ hello.content_buffer)
content_length-prepare_header_buffer_write_example =
    content_length-prepare_header_buffer_write 7 hello (omega arith)

-- Twenty bytes that announce five.
abbrev misframed : Message
misframed = record {
  header_buffer = codes "/broekman/tcp/1.0/         5";
  content_buffer = replicate 20 7;
}

-- Ten thousand million bytes.
huge : Message
huge = record { header_buffer = []; content_buffer = replicate (10 ^ 10) 0 }

length-huge : length huge.content_buffer ≡ 10 ^ 10
unfolding huge
length-huge = length-replicate {A = ℕ} (10 ^ 10) 0

content_length_too_long_example :
    (default_header_length < length (prepare_header_buffer_write huge).header_buffer)
    × (get_header_buffer_content_length 7 (prepare_header_buffer_write huge) ≡ 0)
content_length_too_long_example =
    content_length_too_long 7 huge (omega (arith, length-huge)) (omega (arith, length-huge))

-- A message that announces minus one.
abbrev pub minus_one : Message
minus_one = record { header_buffer = codes "/broekman/tcp/1.0/        -1"; content_buffer = [] }

prepare_content_buffer_read_minus_example :
    (get_header_buffer_content_length 7 minus_one ≡ 18446744073709551615)
    × (prepare_content_buffer_read 7 minus_one ≡ throw length_error)
unfolding scan is_digit
prepare_content_buffer_read_minus_example =
    prepare_content_buffer_read_minus 7 minus_one 8 49 [] refl refl (omega arith, omega arith)
      (omega arith) (omega arith)

pub minus_one_throws : prepare_content_buffer_read 7 minus_one ≡ throw length_error
unfolding scan is_digit
minus_one_throws =
    (prepare_content_buffer_read_minus 7 minus_one 8 49 [] refl refl (omega arith, omega arith)
      (omega arith) (omega arith)).1

abbrev unmagical : Message
unmagical = record { header_buffer = codes "GET / HTTP/1.1 AB          5"; content_buffer = [] }

content_length_ignores_magic_example :
    get_header_buffer_content_length 7 misframed ≡ get_header_buffer_content_length 7 unmagical
content_length_ignores_magic_example =
    content_length_ignores_magic 7 misframed unmagical refl refl refl

abbrev white : Message
white = record { header_buffer = codes "/broekman/tcp/1.0/          "; content_buffer = [] }

white-IsBlank : IsBlank (drop 18 white.header_buffer)
unfolding is_space
white-IsBlank = (refl, (refl, (refl, (refl, (refl, (refl, (refl, (refl, (refl, (refl, tt))))))))))

content_length_blank_example : get_header_buffer_content_length 7 white ≡ 7
content_length_blank_example = content_length_blank 7 white refl white-IsBlank

read_file-write_file_example :
    ((write_file "a" hello quiet).0 ≡ true)
    × (read_file "a" default_message (write_file "a" hello quiet).1 ≡ (
      true,
      record default_message { content_buffer = hello.content_buffer },
      (write_file "a" hello quiet).1,
    ))
    × ((write_file "a" hello quiet).1.files "b" ≡ quiet.files "b")
read_file-write_file_example = read_file-write_file "a" "b" hello default_message quiet refl refl

abbrev large : Message
large = record { header_buffer = []; content_buffer = replicate 10001 65 }
