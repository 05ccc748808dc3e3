-- ===== src/Network/Reading.antt =====
-- When an end can complete its operation: the bytes that it waits for have arrived.
use micro_tcp.Common.{
  ℕ, ◌^◌, ◌<◌, zero, false, List, [], ◌∷◌, ◌++◌, ◌⊎◌, inl, inr, append_assoc, append-nil, ok, ◌≡◌,
  refl, sym, ap, ◌∙◌, Bytes, length, arith, All, length-append, length-replicate,
}
use micro_tcp.Platform.{Platform}
use micro_tcp.Message.{Message, default_header_length, get_header_buffer_content_length}
use micro_tcp.Message.Header.{header_of, length-header_of, content_length-header_of}
use micro_tcp.Handlers.{Handlers}
use micro_tcp.Session.{
  Role, server, client, Operation, async_handshake, async_read_header, async_read_content,
  async_write_header, async_write_content, Session,
}
use micro_tcp.Session.ServerSession
use micro_tcp.Session.ClientSession
use micro_tcp.Session.Completion.{complete, read_header_done}
use micro_tcp.Session.Transfer.{fill_whole, announced, framed, header_read}
use micro_tcp.Network.Specification.{
  chunks, framings, IsChunk, framed-IsChunk, first_same, split_same,
}
use micro_tcp.Network.{Stream, whole, Moves}

arrived_whole : (i : Stream) → i.unsent ≡ [] → i.consumed ++ i.arrived ≡ whole i
arrived_whole i sent = rw (sent, append-nil)

module _ (old : ℕ) where
  -- What follows on a stream of frames behind some messages: a frame.
  abbrev pub Follows : Bytes → Type 0
  Follows rest =
      (c : Bytes) × (ds : List Bytes) × (length c < 10 ^ 10)
      × (rest ≡ header_of (length c) ++ (c ++ chunks (framings ds)))

  pub next_frame :
      (gs : List Message) (cs : List Bytes) (rest : Bytes)
      → All (IsChunk old) gs
      → All (λ c. length c < 10 ^ 10) cs
      → (length gs < length cs) ⊎ (0 < length rest)
      → chunks gs ++ rest ≡ chunks (framings cs)
      → Follows rest
  next_frame [] [] rest all small (inl lt) e = absurd (omega arith)
  next_frame [] [] rest all small (inr lt) e = absurd (omega (arith, ap length e))
  next_frame [] (c ∷ cs) rest all (lt, small) more e = (c, cs, lt, e)
  next_frame (g ∷ gs) [] rest all small (inl lt) e = absurd (omega arith)
  next_frame (g ∷ gs) [] rest all small (inr lt) e =
      absurd (omega (arith, length-append {0}, ap length e))
  next_frame (g ∷ gs) (c ∷ cs) rest (chunk, all) (lt, small) more e =
      let e' =
        sym
          (rw (append_assoc g.header_buffer _ rest, append_assoc g.content_buffer (chunks gs) rest))
        ∙ e in
      let (same, behind) =
        first_same old g (framed c) (chunks gs ++ rest) (chunks (framings cs)) chunk
          (framed-IsChunk old c lt) e' in
      next_frame gs cs rest all small (less more) behind
    where
      less :
          (length (g ∷ gs) < length (c ∷ cs)) ⊎ (0 < length rest)
          → (length gs < length cs) ⊎ (0 < length rest)
      less (inl x) = inl (omega arith)
      less (inr x) = inr x

module _ (p : Platform) (h : Handlers) (fine : p.ErrorCode) (succeeds : p.failed fine ≡ false)
    (r : Role) (s : Session p.Socket) where
  open p use {Socket, indeterminate}

  -- The pending operation can complete without an error, and the handler returns.
  abbrev pub CanComplete : Stream → Stream → Type 0
  CanComplete i o =
      (op : Operation) × (bytes : Bytes) × (i' : Stream) × (o' : Stream) × (t : Session Socket)
      × (s.pending ≡ op ∷ [])
      × Moves false op bytes i o i' o'
      × (complete p h r op fine bytes (record s { pending = []; world = s.world }) ≡ ok t)

  pub handshake_completes :
      (type : Role) (i o : Stream) → s.pending ≡ async_handshake type ∷ [] → CanComplete i o
  unfolding complete
  handshake_completes type i o e = (async_handshake type, [], i, o, _, e, (refl, refl), refl)

  pub write_header_completes :
      (b : Bytes) (i o : Stream)
      → s.pending ≡ async_write_header b ∷ []
      → o.unsent ≡ []
      → CanComplete i o
  unfolding complete
  write_header_completes b i o e sent =
      (async_write_header b, [], i, o, _, e, (refl, (refl, refl, sent, inr sent)), refl)

  pub write_content_completes :
      (b : Bytes) (i o : Stream)
      → s.pending ≡ async_write_content b ∷ []
      → o.unsent ≡ []
      → CanComplete i o
  unfolding complete
  write_content_completes b i o e sent =
      (async_write_content b, [], i, o, _, e, (refl, (refl, refl, sent, inr sent)), refl)

  pub read_content_completes :
      (n : ℕ) (i o : Stream) (content rest : Bytes)
      → s.pending ≡ async_read_content n ∷ []
      → i.arrived ≡ content ++ rest
      → length content ≡ n
      → CanComplete i o
  unfolding complete
  read_content_completes n i o content rest e here size =
      let i' = record i { consumed = i.consumed ++ content; arrived = rest } in
      (async_read_content n, content, i', o, _, e, ((here, refl, refl, inr size), refl), refl)

  header_completes :
      (r : Role) (n : ℕ) (c : Bytes)
      → length s.read_buffer.header_buffer ≡ default_header_length
      → length c < 10 ^ 10
      → (t : Session Socket) × (complete p h r
            (async_read_header n)
            fine
            (header_of (length c))
            (record s { pending = []; world = s.world })
          ≡ ok t)
  unfolding complete read_header_done ServerSession.on_read_header ClientSession.on_read_header
  header_completes server n c l lt = (
    header_read p h fine succeeds server s c,
    rw (
      succeeds,
      fill_whole (header_of (length c)) s.read_buffer.header_buffer (length-header_of _ lt ∙ sym l),
      announced indeterminate (length c) s.read_buffer.content_buffer lt,
      length-replicate (length c) zero,
    ),
  )
  header_completes client n c l lt = (
    header_read p h fine succeeds client s c,
    rw (
      succeeds,
      fill_whole (header_of (length c)) s.read_buffer.header_buffer (length-header_of _ lt ∙ sym l),
      announced indeterminate (length c) s.read_buffer.content_buffer lt,
      length-replicate (length c) zero,
    ),
  )

  pub read_header_completes :
      (n : ℕ) (i o : Stream) (c rest : Bytes)
      → s.pending ≡ async_read_header n ∷ []
      → (n ≡ default_header_length) × (length s.read_buffer.header_buffer ≡ n)
      → length c < 10 ^ 10
      → i.arrived ≡ header_of (length c) ++ rest
      → CanComplete i o
  read_header_completes n i o c rest e (size, l) lt here =
      let (t, g) = header_completes r n c (l ∙ size) lt in
      let i' = record i { consumed = i.consumed ++ header_of (length c); arrived = rest } in
      (
        async_read_header n,
        header_of (length c),
        i',
        o,
        t,
        e,
        ((here, refl, refl, inr (length-header_of _ lt ∙ sym size)), refl),
        g,
      )

  -- Behind some messages, a frame has arrived whole.
  pub header_here :
      (n : ℕ) (i o : Stream) (gs : List Message) (cs : List Bytes)
      → s.pending ≡ async_read_header n ∷ []
      → (n ≡ default_header_length) × (length s.read_buffer.header_buffer ≡ n)
      → All (IsChunk indeterminate) gs
      → All (λ c. length c < 10 ^ 10) cs
      → length gs < length cs
      → i.consumed ≡ chunks gs
      → i.unsent ≡ []
      → whole i ≡ chunks (framings cs)
      → CanComplete i o
  header_here n i o gs cs e sizes all small more read sent all_sent =
      let (c, ds, lt, here) =
        next_frame indeterminate gs cs i.arrived all small (inl more)
          (ap (λ b. b ++ i.arrived) (sym read) ∙ arrived_whole i sent ∙ all_sent) in
      read_header_completes n i o c (c ++ chunks (framings ds)) e sizes lt here

  pub content_here :
      (n : ℕ) (i o : Stream) (gs : List Message) (cs : List Bytes)
      → s.pending ≡ async_read_content n ∷ []
      → length s.read_buffer.header_buffer ≡ default_header_length
      → get_header_buffer_content_length indeterminate s.read_buffer ≡ n
      → All (IsChunk indeterminate) gs
      → All (λ c. length c < 10 ^ 10) cs
      → i.consumed ≡ chunks gs ++ s.read_buffer.header_buffer
      → i.unsent ≡ []
      → whole i ≡ chunks (framings cs)
      → CanComplete i o
  content_here n i o gs cs e l size all small read sent all_sent =
      let hd = s.read_buffer.header_buffer in
      let (c, ds, lt, here) =
        next_frame indeterminate gs cs (hd ++ i.arrived) all small
          (inr (omega (arith, length-append hd i.arrived, l)))
          (sym (append_assoc (chunks gs) hd i.arrived)
            ∙ ap (λ b. b ++ i.arrived) (sym read)
            ∙ arrived_whole i sent
            ∙ all_sent) in
      let (heads, rest) =
        split_same hd (header_of (length c)) i.arrived _ (l ∙ sym (length-header_of (length c) lt))
          here in
      read_content_completes n i o c (chunks (framings ds)) e rest
        (sym (content_length-header_of indeterminate (length c) s.read_buffer heads lt) ∙ size)
