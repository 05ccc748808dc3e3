-- ===== src/Message/Content.antt =====
-- The content buffer: its size against the header, on the writing and on the reading side.
use micro_tcp.Common.{
  ℕ, zero, suc, ◌-◌, ◌^◌, ◌≤◌, ◌<◌, ◌≡◌, refl, sym, ap, ◌∙◌, [], ◌∷◌, ◌++◌, arith, Bytes, length,
  drop, replicate, if◌then◌else◌, leb, ◌==◌, Bool-cases, ok, throw, inl, inr, length_error, take,
  leb-false,
}
use micro_tcp.Stream.{space, scan, size_mod}
use micro_tcp.Stream.Decimal.{IsDigit}
use micro_tcp.Stream.Laws.{extract, extract_padding, extract_minus}
use micro_tcp.Message.{
  Message, default_header_length, max_size, prepare_header_buffer_write,
  get_header_buffer_content_length, prepare_content_buffer_write, prepare_content_buffer_read,
  prepare_header_buffer_read,
}
use micro_tcp.Message.Header.{
  header_of, prepare_header_buffer_write-header, content_length_field, content_length-header_of,
}

-- The header buffer is the header of the content buffer.
abbrev pub IsFramed : Message → Type 0
IsFramed m = m.header_buffer ≡ header_of (length m.content_buffer)

pub prepare_header_buffer_write-IsFramed : (m : Message) → IsFramed (prepare_header_buffer_write m)
prepare_header_buffer_write-IsFramed m = rw (prepare_header_buffer_write-header m)

reframe : (m : Message) → IsFramed m → prepare_header_buffer_write m ≡ m
reframe m h = prepare_header_buffer_write-header m ∙ λ i. record {
  header_buffer = sym h i;
  content_buffer = m.content_buffer;
}

-- A framed message of any size is left as it is.
pub prepare_content_buffer_write-IsFramed :
    (old : ℕ) (m : Message) → IsFramed m → prepare_content_buffer_write old m ≡ m
unfolding prepare_content_buffer_write
prepare_content_buffer_write-IsFramed old m h =
    elim (Bool-cases (length m.content_buffer == get_header_buffer_content_length old m)) [
      | inl e ↦ rw e
      | inr e ↦ rw e (reframe m h)
    ]

-- Whatever header a message had, after `prepare_content_buffer_write` the content length that is
-- read from its header is the size of its content, which is unchanged, if that is below 10^10.
pub content_length-prepare_content_buffer_write :
    (old : ℕ) (m : Message)
    → length m.content_buffer < 10 ^ 10
    → let w = prepare_content_buffer_write old m in
      (get_header_buffer_content_length old w ≡ length m.content_buffer)
      × (w.content_buffer ≡ m.content_buffer)
unfolding prepare_content_buffer_write
content_length-prepare_content_buffer_write old m h =
    elim (Bool-cases (length m.content_buffer == get_header_buffer_content_length old m)) [
      | inl e ↦ rw e (ground arith, refl)
      | inr e ↦
          rw (e, prepare_header_buffer_write-header m)
            (
              content_length-header_of old (length m.content_buffer)
                  (record m { header_buffer = header_of (length m.content_buffer) }) refl h,
              refl,
            )
    ]

cleared_length :
    (old : ℕ) (m : Message)
    → get_header_buffer_content_length old (record m { content_buffer = [] })
      ≡ get_header_buffer_content_length old m
unfolding get_header_buffer_content_length
cleared_length old m = refl

sub_zero : (n : ℕ) → n - 0 ≡ n
sub_zero n = omega arith

resized : (n : ℕ) → take {A = ℕ} n [] ++ replicate (n - 0) zero ≡ replicate n zero
resized zero = refl
resized (suc n) = ap (λ k. replicate k zero) (sub_zero (suc n))

-- The content buffer gets as many zero bytes as the header announces, or the vector throws
-- `std::length_error` since they are more than its `max_size`.
pub prepare_content_buffer_read_lem :
    (old : ℕ) (m : Message)
    → prepare_content_buffer_read old m ≡ (
        if leb (get_header_buffer_content_length old m) max_size
        then ok (record m { content_buffer = replicate (get_header_buffer_content_length old m) 0 })
        else throw length_error)
unfolding prepare_content_buffer_read
prepare_content_buffer_read_lem old m =
    let n = get_header_buffer_content_length old m in
    rw (cleared_length old m)
      (elim (Bool-cases (leb n max_size)) [ inl e ↦ rw (e, resized n) | inr e ↦ rw e ])

pub prepare_header_buffer_read_lem :
    (m : Message)
    → prepare_header_buffer_read m ≡ record m { header_buffer = replicate default_header_length 0 }
unfolding prepare_header_buffer_read
prepare_header_buffer_read_lem m = refl

-- A header of 28 bytes with a negative length field (blanks, a minus sign and the digits of a
-- number from 1 to 2^63) announces 2^64 minus that number, and preparing the content buffer throws
-- length_error.
pub prepare_content_buffer_read_minus :
    (old : ℕ) (m : Message) (k c : ℕ) (cs : Bytes)
    → length m.header_buffer ≡ default_header_length
    → drop 18 m.header_buffer ≡ replicate k space ++ b'-' ∷ c ∷ cs
    → IsDigit c
    → 0 < scan 0 (c ∷ cs)
    → scan 0 (c ∷ cs) ≤ 2 ^ 63
    → (get_header_buffer_content_length old m ≡ size_mod - scan 0 (c ∷ cs))
      × (prepare_content_buffer_read old m ≡ throw length_error)
prepare_content_buffer_read_minus old m k c cs h e d p le =
    let value : get_header_buffer_content_length old m ≡ size_mod - scan 0 (c ∷ cs) =
      content_length_field old m h
      ∙ ap (extract old) e
      ∙ extract_padding k old _
      ∙ extract_minus old c cs d p (omega arith) in
    (
      value,
      prepare_content_buffer_read_lem old m
          ∙ rw (leb-false (get_header_buffer_content_length old m) max_size (omega arith)) refl,
    )
