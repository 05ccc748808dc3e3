-- ===== src/Message/Header.antt =====
-- The header's layout, and the content length that is read from it.
use micro_tcp.Common.{
  ℕ, ◌-◌, ◌^◌, ◌≤◌, ◌<◌, ◌≡◌, ◌≢◌, refl, sym, ap, true, [], ◌∷◌, ◌++◌, arith, Bytes, length, drop,
  length-drop, ◌∙◌, replicate, length-append, length-replicate, All, eq-true, eq-false,
}
use micro_tcp.Stream.{space, decimal, put_number, copy_in, scan, size_mod}
use micro_tcp.Stream.Decimal.{
  IsDigit, decimal_digits, length-decimal-le, length-decimal-lt, length-decimal-pos,
}
use micro_tcp.Stream.Laws.{
  IsBlank, extract, get_number-extract, copy_out_padded, extract_padding, extract_blank,
  extract_digits,
}
use micro_tcp.Message.{
  Message, magic_numbers, content_length_digits10, default_header_length,
  prepare_header_buffer_write, get_header_buffer_content_length,
}

-- The length field that is written for a content of `n` bytes: blanks, and the digits of `n`.
abbrev pub length_field : ℕ → Bytes
length_field n = replicate (content_length_digits10 - length (decimal n)) space ++ decimal n

abbrev pub header_of : ℕ → Bytes
header_of n = magic_numbers ++ length_field n

pub prepare_header_buffer_write-header :
    (m : Message)
    → prepare_header_buffer_write m
      ≡ record m { header_buffer = header_of (length m.content_buffer) }
unfolding prepare_header_buffer_write put_number copy_in
prepare_header_buffer_write-header m = refl

pub length-header_of : (n : ℕ) → n < 10 ^ 10 → length (header_of n) ≡ default_header_length
length-header_of n h = omega (arith, length-append {0}, length-replicate {0}, length-decimal-le n h)

pub length-header_of_long :
    (n : ℕ) → n < 2 ^ 64 → 10 ^ 10 ≤ n → default_header_length < length (header_of n)
length-header_of_long n h g =
    omega (arith, length-append {0}, length-replicate {0}, length-decimal-lt 10 n h g)

-- The length field of a header is what stands behind the magic bytes.
pub content_length_long :
    (old : ℕ) (m : Message)
    → length m.header_buffer ≢ default_header_length
    → get_header_buffer_content_length old m ≡ 0
unfolding get_header_buffer_content_length
content_length_long old m h = rw (eq-false _ _ h)

content_length_cons :
    (old c : ℕ) (cs : Bytes) (m : Message)
    → length m.header_buffer ≡ default_header_length
    → drop 18 m.header_buffer ≡ c ∷ cs
    → get_header_buffer_content_length old m ≡ extract old (c ∷ cs)
unfolding get_header_buffer_content_length
content_length_cons old c cs m h e =
    rw (eq-true _ _ h, e, copy_out_padded c cs 10)
      (get_number-extract _ 0 old true ∙ extract_padding 9 old (c ∷ cs))

content_length_aux :
    (old : ℕ) (m : Message) (field : Bytes)
    → length m.header_buffer ≡ default_header_length
    → drop 18 m.header_buffer ≡ field
    → length field ≡ 10
    → get_header_buffer_content_length old m ≡ extract old field
content_length_aux old m [] h e l = absurd (omega arith)
content_length_aux old m (c ∷ cs) h e l = content_length_cons old c cs m h e

-- Of a header of the right size, the content length is what an extraction gives for the ten
-- characters behind the magic bytes.
pub content_length_field :
    (old : ℕ) (m : Message)
    → length m.header_buffer ≡ default_header_length
    → get_header_buffer_content_length old m ≡ extract old (drop 18 m.header_buffer)
content_length_field old m h =
    content_length_aux old m _ h refl (omega (arith, length-drop 18 m.header_buffer))

-- Digits behind blanks.
extract_field :
    (old : ℕ) (ds : Bytes)
    → All IsDigit ds
    → 0 < length ds
    → scan 0 ds < size_mod
    → extract old ds ≡ scan 0 ds
extract_field old [] h p lt = absurd (omega arith)
extract_field old (c ∷ cs) (hc, h) p lt = extract_digits old c cs hc lt

extract-length_field : (old n : ℕ) → n < size_mod → extract old (length_field n) ≡ n
extract-length_field old n h =
    let (ds, value) = decimal_digits n h in
    extract_padding _ old (decimal n)
    ∙ extract_field old (decimal n) ds (length-decimal-pos n) (omega arith)
    ∙ value

-- The content length that is read back from a header that announces `n` bytes.
pub content_length-header_of :
    (old n : ℕ) (m : Message)
    → m.header_buffer ≡ header_of n
    → n < 10 ^ 10
    → get_header_buffer_content_length old m ≡ n
content_length-header_of old n m e h =
    content_length_field old m (rw e (length-header_of n h))
    ∙ ap (λ b. extract old (drop 18 b)) e
    ∙ extract-length_field old n (omega arith)

-- A message with less than 10^10 bytes of content gets a header of exactly 28 bytes, the content
-- length that is read from this header is the number of bytes of the content, and the content is
-- unchanged.
pub content_length-prepare_header_buffer_write :
    (old : ℕ) (m : Message)
    → length m.content_buffer < 10 ^ 10
    → let w = prepare_header_buffer_write m in
      (length w.header_buffer ≡ default_header_length)
      × (get_header_buffer_content_length old w ≡ length m.content_buffer)
      × (w.content_buffer ≡ m.content_buffer)
content_length-prepare_header_buffer_write old m h = rw (prepare_header_buffer_write-header m) (
  length-header_of (length m.content_buffer) h,
  content_length-header_of old (length m.content_buffer)
      (record m { header_buffer = header_of (length m.content_buffer) }) refl h,
  refl,
)

-- A content of 10^10 bytes or more, below 2^64, gets a header of more than 28 bytes, and the
-- content length that is read from this header is 0.
pub content_length_too_long :
    (old : ℕ) (m : Message)
    → 10 ^ 10 ≤ length m.content_buffer
    → length m.content_buffer < 2 ^ 64
    → let w = prepare_header_buffer_write m in
      (default_header_length < length w.header_buffer)
      × (get_header_buffer_content_length old w ≡ 0)
content_length_too_long old m h lt =
    let long = length-header_of_long (length m.content_buffer) lt h in
    rw (prepare_header_buffer_write-header m)
      (long, content_length_long old _ (λ e. absurd (omega arith)))

-- Two headers of 28 bytes that agree behind the first eighteen give the same content length: the
-- magic bytes are not looked at.
pub content_length_ignores_magic :
    (old : ℕ) (m w : Message)
    → length m.header_buffer ≡ default_header_length
    → length w.header_buffer ≡ default_header_length
    → drop 18 m.header_buffer ≡ drop 18 w.header_buffer
    → get_header_buffer_content_length old m ≡ get_header_buffer_content_length old w
content_length_ignores_magic old m w h g e =
    content_length_field old m h ∙ ap (extract old) e ∙ sym (content_length_field old w g)

-- A length field of ten white-space characters in a header of 28 bytes leaves the uninitialised
-- variable as it was: the content length is the value that it happens to hold.
pub content_length_blank :
    (old : ℕ) (m : Message)
    → length m.header_buffer ≡ default_header_length
    → IsBlank (drop 18 m.header_buffer)
    → get_header_buffer_content_length old m ≡ old
content_length_blank old m h b =
    content_length_field old m h ∙ extract_blank old (drop 18 m.header_buffer) b
