-- ===== src/Session/Stopping.antt =====
-- The end of a session that is stopped, also while an operation of it is pending, as `client::disconnect`
-- stops a session that waits for a response.
use mathlib.Core.Path.{subst}
use micro_tcp.Common.{
  ℕ, zero, suc, ◌+◌, ◌*◌, ◌≤◌, List, [], ◌∷◌, ◌++◌, ◌≡◌, refl, ap, ◌⊎◌, inl, inr, List-cases, true,
  false, ◌||◌, Result, ok, throw, ◌>>=◌, ◌≢◌, Bytes, length, arith,
}
use micro_tcp.Platform.{Platform}
use micro_tcp.Handlers.{Handlers}
use micro_tcp.Session.{Role, Operation, Session, stop}
use micro_tcp.Session.Completion.{complete}
use micro_tcp.Session.Ending.{
  weight, closes, cost, will_close, cost-append, will_close-append, cost-length, weight_pos, Ends,
  Advances, stop-cost, complete-Advances,
}

module _ (p : Platform) (h : Handlers) (r : Role) where
  open p use {Socket, ErrorCode, is_open}

  -- `n` completions at the end of a session, each of any operation that is pending then.
  pub data Ending (s : Session Socket) : ℕ → Session Socket → Type 0 where
    here : Ending s zero s
    then :
        {n : ℕ} {t u : Session Socket}
        → Ending s n t
        → (before after : List Operation) (op : Operation) (ec : ErrorCode) (bytes : Bytes)
        → t.pending ≡ before ++ op ∷ after
        → Ends p op ec
        → complete p h r op ec bytes (record t { pending = before ++ after }) ≡ ok u
        → Ending s (suc n) u

  -- The socket is closed, or a pending operation goes on to close it.
  abbrev pub IsClosing : Session Socket → Type 0
  IsClosing t = (is_open t.socket ≡ false) ⊎ (will_close t.pending ≡ true)

  cost-middle :
      (before after : List Operation) (op : Operation)
      → cost (before ++ op ∷ after) ≡ weight op + cost (before ++ after)
  unfolding cost
  cost-middle before after op =
      omega (arith, cost-append before (op ∷ after), cost-append before after)

  pub will_close-middle :
      (before after : List Operation) (op : Operation)
      → will_close (before ++ op ∷ after) ≡ (closes op || will_close (before ++ after))
  unfolding will_close
  will_close-middle before after op =
      ground (arith, will_close-append before (op ∷ after), will_close-append before after)

  step_Advances :
      (before after : List Operation) (op : Operation) (ec : ErrorCode) (bytes : Bytes)
      (t u : Session Socket)
      → Ends p op ec
      → complete p h r op ec bytes (record t { pending = before ++ after }) ≡ ok u
      → Advances p (record t { pending = before ++ after }) op (ok u)
  step_Advances before after op ec bytes t u f g =
      subst (Advances p (record t { pending = before ++ after }) op) g
        (complete-Advances p h r op ec bytes (record t { pending = before ++ after }) f)

  Ending-cost : {s t : Session Socket} {n : ℕ} → Ending s n t → n + cost t.pending ≤ cost s.pending
  Ending-cost here = omega arith
  Ending-cost (then {t = t} {u = u} e before after op ec bytes m f g) = omega (
    arith,
    Ending-cost e,
    cost-middle before after op,
    ap cost m,
    (step_Advances before after op ec bytes t u f g).0,
  )

  Ending-IsClosing : {s t : Session Socket} {n : ℕ} → Ending s n t → IsClosing s → IsClosing t
  Ending-IsClosing here c = c
  Ending-IsClosing (then {t = t} {u = u} e before after op ec bytes m f g) c =
      let a = step_Advances before after op ec bytes t u f g in
      let b = Ending-IsClosing e c in
      ground (arith, will_close-middle before after op, ap will_close m)

  -- The oldest pending operation is completed as `end` says, for as many rounds.
  pub settle : (Operation → ErrorCode × Bytes) → ℕ → Session Socket → Result (Session Socket)
  settle end zero s = ok s
  settle end (suc n) s = elim s.pending [
    | [] ↦ ok s
    | op ∷ ops ↦
        complete p h r op (end op).0 (end op).1 (record s { pending = ops }) >>= settle end n
  ]

  -- The rounds have returned, with the socket closed and nothing pending.
  abbrev pub IsSettled : Result (Session Socket) → Type 0
  IsSettled (ok s) = (is_open s.socket ≡ false) × (s.pending ≡ [])
  IsSettled (throw e) = ⊥

  IsSettled-idle : (s : Session Socket) → s.pending ≡ [] → IsClosing s → IsSettled (ok s)
  unfolding will_close
  IsSettled-idle s e c = ground (arith, ap will_close e)

  -- One round, where the rounds behind it settle every session that they have enough rounds for.
  IsSettled-after :
      (n : ℕ) (s : Session Socket) (op : Operation) (ops : List Operation)
      (o : Result (Session Socket)) (f : Session Socket → Result (Session Socket))
      → s.pending ≡ op ∷ ops
      → cost s.pending ≤ suc n
      → IsClosing s
      → Advances p (record s { pending = ops }) op o
      → ((t : Session Socket) → cost t.pending ≤ n → IsClosing t → IsSettled (f t))
      → IsSettled (o >>= f)
  unfolding cost will_close
  IsSettled-after n s op ops (ok t) f e le c a ih =
      ih t (omega (arith, ap cost e, a.0)) (ground (arith, ap will_close e))
  IsSettled-after n s op ops (throw x) f e le c a ih = absurd a

  IsSettled-settle :
      (end : Operation → ErrorCode × Bytes) (n : ℕ) (s : Session Socket)
      → ((op : Operation) → Ends p op (end op).0)
      → cost s.pending ≤ n
      → IsClosing s
      → IsSettled (settle end n s)
  unfolding settle cost
  IsSettled-settle end zero s ends le c = elim (List-cases s.pending) [
    | inl e ↦ IsSettled-idle s e c
    | inr (op, ops, e) ↦ absurd (omega (arith, ap cost e, weight_pos op))
  ]
  IsSettled-settle end (suc n) s ends le c = elim (List-cases s.pending) [
    | inl e ↦ rw e ((IsSettled-idle s e c).0, refl)
    | inr (op, ops, e) ↦ rw e (
        IsSettled-after n s op ops
          (complete p h r op (end op).0 (end op).1 (record s { pending = ops })) (settle end n) e le
          c
          (complete-Advances p h r op (end op).0 (end op).1 (record s { pending = ops }) (ends op))
          (λ t le' c'. IsSettled-settle end n t ends le' c'))
  ]

-- `stop` in any state of a session, whatever is pending, ends: behind it at most two completions can
-- follow, and three for each operation that was pending, in any order, if every handshake and every
-- transfer then fails with any error code, and shutdowns, null writes and waits complete in any way;
-- and until the socket is closed, something is pending.
pub stop_ends :
    (p : Platform) (h : Handlers) (r : Role) (s t : Session p.Socket) (n : ℕ)
    → Ending p h r (stop p s) n t
    → (n ≤ 3 * length s.pending + 2) × ((p.is_open t.socket ≡ false) ⊎ (t.pending ≢ []))
unfolding will_close
stop_ends p h r s t n e = (
  omega (arith, Ending-cost p h r e, stop-cost p s, cost-length s.pending),
  elim (Ending-IsClosing p h r e (inr (stop-cost p s).1)) [
    | inl closed ↦ inl closed
    | inr w ↦ inr (λ nil. cc (w, ap will_close nil))
  ],
)

-- After `stop` in any state of a session, the completion of the oldest pending operation, again and
-- again, returns, and after three rounds for each operation that was pending and two more the
-- socket is closed and nothing is pending, if every handshake and every transfer fails with any error
-- code, and however the shutdowns, null writes and waits end.
pub stop_settles :
    (p : Platform) (h : Handlers) (r : Role) (end : Operation → p.ErrorCode × Bytes)
    (s : Session p.Socket)
    → ((op : Operation) → Ends p op (end op).0)
    → IsSettled p h r (settle p h r end (3 * length s.pending + 2) (stop p s))
stop_settles p h r end s ends =
    IsSettled-settle p h r end (3 * length s.pending + 2) (stop p s) ends
      (omega (arith, stop-cost p s, cost-length s.pending)) (inr (stop-cost p s).1)
