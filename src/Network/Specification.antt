-- ===== src/Network/Specification.antt =====
-- The specification of the two ends: what a stream of messages looks like, which messages can be read from
-- it, and what a server answers.
use mathlib.Core.List.{IsPrefix, map}
use micro_tcp.Common.{
  ℕ, ◌^◌, ◌<◌, List, [], ◌∷◌, ◌++◌, append-nil, append_assoc, ◌≡◌, refl, sym, ap, ◌∙◌, Bytes,
  length, All, arith, take, drop, take_front, drop_front, length-append,
}
use micro_tcp.Message.{Message, default_header_length, get_header_buffer_content_length}
use micro_tcp.Message.Header.{length-header_of, content_length-header_of}
use micro_tcp.Handlers.{Handlers}
use micro_tcp.Session.Transfer.{framed}
use micro_tcp.Session.Service.{cleared}
use micro_tcp.Session.Conversation.{answers}

-- The bytes of some messages.
abbrev pub chunks : List Message → Bytes
chunks [] = []
chunks (m ∷ ms) = m.header_buffer ++ (m.content_buffer ++ chunks ms)

-- The messages that a peer sends for some contents.
abbrev pub framings : List Bytes → List Message
framings cs = map framed cs

abbrev pub contents : List Message → List Bytes
contents ms = map (λ m. m.content_buffer) ms

-- The contents of what a server answers to these messages: the handler is given each of them and the write
-- buffer, which is `write` the first time and a cleared one after that.
abbrev pub replies : Handlers → Message → List Message → List Bytes
replies h write [] = []
replies h write (q ∷ qs) = (h.handle_request q write).content_buffer ∷ replies h cleared qs

-- The write buffer behind these messages.
abbrev pub after : Message → List Message → Message
after write [] = write
after write (q ∷ qs) = after cleared qs

pub chunks-snoc :
    (ms : List Message) (m : Message)
    → chunks (ms ++ m ∷ []) ≡ chunks ms ++ (m.header_buffer ++ m.content_buffer)
chunks-snoc [] m = rw append-nil
chunks-snoc (n ∷ ms) m = rw (chunks-snoc ms m, append_assoc, append_assoc)

pub framings-snoc :
    (cs : List Bytes) (c : Bytes) → framings (cs ++ c ∷ []) ≡ framings cs ++ framed c ∷ []
framings-snoc [] c = refl
framings-snoc (d ∷ cs) c = ap (λ ms. framed d ∷ ms) (framings-snoc cs c)

pub contents-snoc :
    (ms : List Message) (m : Message)
    → contents (ms ++ m ∷ []) ≡ contents ms ++ m.content_buffer ∷ []
contents-snoc [] m = refl
contents-snoc (n ∷ ms) m = rw (contents-snoc ms m)

module _ (h : Handlers) where
  pub replies-snoc :
      (write : Message) (qs : List Message) (q : Message)
      → replies h write (qs ++ q ∷ [])
        ≡ replies h write qs ++ (h.handle_request q (after write qs)).content_buffer ∷ []
  replies-snoc write [] q = refl
  replies-snoc write (x ∷ qs) q = rw (replies-snoc cleared qs q)

  pub replies-append :
      (write : Message) (qs rs : List Message)
      → IsPrefix (replies h write qs) (replies h write (qs ++ rs))
  replies-append write [] rs = (replies h write rs, refl)
  replies-append write (q ∷ qs) rs =
      let (t, e) = replies-append cleared qs rs in
      (t, ap (λ l. (h.handle_request q write).content_buffer ∷ l) e)

  pub answers_lem :
      (write : Message) (ms : List Message)
      → answers h write ms ≡ replies h write (framings (contents ms))
  unfolding answers
  answers_lem write [] = refl
  answers_lem write (m ∷ ms) =
      ap (λ l. (h.handle_request (framed m.content_buffer) write).content_buffer ∷ l)
        (answers_lem cleared ms)

pub after-snoc :
    (write : Message) (qs : List Message) (q : Message) → after write (qs ++ q ∷ []) ≡ cleared
after-snoc write [] q = refl
after-snoc write (x ∷ qs) q = after-snoc cleared qs q

-- A list of bytes is split in one way only where the length of its front is given.
pub split_same : (a b x y : Bytes) → length a ≡ length b → a ++ x ≡ b ++ y → (a ≡ b) × (x ≡ y)
split_same a b x y l e =
    let n = length b in
    (
      sym (take_front a x n l) ∙ ap (λ z. take n z) e ∙ take_front b y n refl,
      sym (drop_front a x n l) ∙ ap (λ z. drop n z) e ∙ drop_front b y n refl,
    )

module _ (old : ℕ) where
  -- A message as it is read: the content has the size that its header announces.
  abbrev pub IsChunk : Message → Type 0
  IsChunk m =
      (length m.header_buffer ≡ default_header_length)
      × (get_header_buffer_content_length old m ≡ length m.content_buffer)

  pub framed-IsChunk : (c : Bytes) → length c < 10 ^ 10 → IsChunk (framed c)
  framed-IsChunk c lt = (length-header_of (length c) lt, content_length-header_of old _ _ refl lt)

  -- What a header announces depends on the header only.
  announced_same :
      (q f : Message)
      → q.header_buffer ≡ f.header_buffer
      → get_header_buffer_content_length old q ≡ get_header_buffer_content_length old f
  unfolding get_header_buffer_content_length
  announced_same q f e =
      ap (λ b. get_header_buffer_content_length old (record q { header_buffer = b })) e

  -- Two messages at the front of the same bytes are the same.
  pub first_same :
      (q f : Message) (x y : Bytes)
      → IsChunk q
      → IsChunk f
      → q.header_buffer ++ (q.content_buffer ++ x) ≡ f.header_buffer ++ (f.content_buffer ++ y)
      → (q ≡ f) × (x ≡ y)
  first_same q f x y (lq, sq) (lf, sf) e =
      let (heads, rest) = split_same q.header_buffer f.header_buffer _ _ (lq ∙ sym lf) e in
      let (same, x≡y) =
        split_same q.content_buffer f.content_buffer x y (sym sq ∙ announced_same q f heads ∙ sf)
          rest in
      (λ i. record { header_buffer = heads i; content_buffer = same i }, x≡y)

  -- Messages whose bytes are at the front of the bytes of others are the first of these.
  pub chunks-IsPrefix :
      (qs fs : List Message)
      → All IsChunk qs
      → All IsChunk fs
      → IsPrefix (chunks qs) (chunks fs)
      → IsPrefix qs fs
  chunks-IsPrefix [] fs whole_qs whole_fs x = (fs, refl)
  chunks-IsPrefix (q ∷ qs) [] ((head, size), whole_qs) whole_fs (t, e) =
      absurd (omega (arith, length-append {0}, ap length e))
  chunks-IsPrefix (q ∷ qs) (f ∷ fs) (here, whole_qs) (here', whole_fs) (t, e) =
      let e' =
        sym (rw (append_assoc q.header_buffer _ t, append_assoc q.content_buffer (chunks qs) t))
        ∙ e in
      let (q≡f, rest) = first_same q f (chunks qs ++ t) (chunks fs) here here' e' in
      let (u, eu) = chunks-IsPrefix qs fs whole_qs whole_fs (t, rest) in (u, λ i. q≡f i ∷ eu i)

  pub framings-IsChunk :
      (cs : List Bytes) → All (λ c. length c < 10 ^ 10) cs → All IsChunk (framings cs)
  framings-IsChunk [] lt = tt
  framings-IsChunk (c ∷ cs) (l, lt) = (framed-IsChunk c l, framings-IsChunk cs lt)
