-- ===== src/Network/Carried.antt =====
-- The operations that carry the messages of a session, among those that are pending.
use micro_tcp.Common.{List, [], ◌∷◌, ◌++◌, ◌≡◌, ◌⊎◌, inl, inr, refl, ap, ◌∙◌, length, arith}
use micro_tcp.Session.{
  Operation, async_handshake, async_read_header, async_read_content, async_write_header,
  async_write_content, async_shutdown, async_write_null, async_wait,
}
use micro_tcp.Network.{written}

-- The operations that an exchange consists of, and the others.
abbrev pub Transfers : Operation → Type 0
Transfers async_shutdown = ⊥
Transfers async_write_null = ⊥
Transfers async_wait = ⊥
Transfers _ = Unit

abbrev pub Closes : Operation → Type 0
Closes async_shutdown = Unit
Closes async_write_null = Unit
Closes async_wait = Unit
Closes _ = ⊥

pub Transfers-Closes : (op : Operation) → Transfers op ⊎ Closes op
Transfers-Closes (async_handshake type) = inl tt
Transfers-Closes (async_read_header n) = inl tt
Transfers-Closes (async_read_content n) = inl tt
Transfers-Closes (async_write_header b) = inl tt
Transfers-Closes (async_write_content b) = inl tt
Transfers-Closes async_shutdown = inr tt
Transfers-Closes async_write_null = inr tt
Transfers-Closes async_wait = inr tt

abbrev pub carry : Operation → List Operation → List Operation
carry async_shutdown ops = ops
carry async_write_null ops = ops
carry async_wait ops = ops
carry op ops = op ∷ ops

abbrev pub carried : List Operation → List Operation
carried [] = []
carried (op ∷ ops) = carry op (carried ops)

pub carry-Transfers :
    (op : Operation) (ops : List Operation) → Transfers op → carry op ops ≡ op ∷ ops
carry-Transfers (async_handshake type) ops x = refl
carry-Transfers (async_read_header n) ops x = refl
carry-Transfers (async_read_content n) ops x = refl
carry-Transfers (async_write_header b) ops x = refl
carry-Transfers (async_write_content b) ops x = refl
carry-Transfers async_shutdown ops x = absurd x
carry-Transfers async_write_null ops x = absurd x
carry-Transfers async_wait ops x = absurd x

pub carry-Closes : (op : Operation) (ops : List Operation) → Closes op → carry op ops ≡ ops
carry-Closes async_shutdown ops x = refl
carry-Closes async_write_null ops x = refl
carry-Closes async_wait ops x = refl
carry-Closes (async_handshake type) ops x = absurd x
carry-Closes (async_read_header n) ops x = absurd x
carry-Closes (async_read_content n) ops x = absurd x
carry-Closes (async_write_header b) ops x = absurd x
carry-Closes (async_write_content b) ops x = absurd x

carry-append : (op : Operation) (xs ys : List Operation) → carry op (xs ++ ys) ≡ carry op xs ++ ys
carry-append (async_handshake type) xs ys = refl
carry-append (async_read_header n) xs ys = refl
carry-append (async_read_content n) xs ys = refl
carry-append (async_write_header b) xs ys = refl
carry-append (async_write_content b) xs ys = refl
carry-append async_shutdown xs ys = refl
carry-append async_write_null xs ys = refl
carry-append async_wait xs ys = refl

pub carried-append : (xs ys : List Operation) → carried (xs ++ ys) ≡ carried xs ++ carried ys
carried-append [] ys = refl
carried-append (op ∷ xs) ys =
    ap (λ l. carry op l) (carried-append xs ys) ∙ carry-append op (carried xs) (carried ys)

pub carried-written : (ops : List Operation) → carried ops ≡ [] → written ops ≡ []
carried-written [] x = refl
carried-written (async_shutdown ∷ ops) x = carried-written ops x
carried-written (async_write_null ∷ ops) x = carried-written ops x
carried-written (async_wait ∷ ops) x = carried-written ops x
carried-written ((async_handshake type) ∷ ops) x = absurd (omega (arith, ap length x))
carried-written ((async_read_header n) ∷ ops) x = absurd (omega (arith, ap length x))
carried-written ((async_read_content n) ∷ ops) x = absurd (omega (arith, ap length x))
carried-written ((async_write_header b) ∷ ops) x = absurd (omega (arith, ap length x))
carried-written ((async_write_content b) ∷ ops) x = absurd (omega (arith, ap length x))
