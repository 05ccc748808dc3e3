-- ===== src/IoManager/Lifecycle/Cuts.antt =====
-- Which calls of `start` leave a manager that cannot be destroyed.
use micro_tcp.Common.{
  ℕ, zero, suc, ◌<◌, ◌≡◌, refl, ◌∙◌, true, false, Bool, List, [], ◌∷◌, ◌++◌, arith, length, All,
  replicate, append_assoc, append-nil, Result, ok, throw, terminate, system_error, ltb-true,
  Exception, Option, none, some, ◌>>=◌, Bool-cases, inl, inr, if◌then◌else◌, ltb,
}
use micro_tcp.IoManager.{
  Resources, set_active, Thread, joinable, joined, IoManager, io_manager, clear_threads, spawn,
  start, stop, destroy,
}
use micro_tcp.IoManager.Lifecycle.{
  IsManaged, Returns, IsStarted, start_inactive, start_active, start_granted, stop_inactive,
  stop-IsManaged, clear_threads-joined, io_manager-IsManaged, destroy_lem,
}
use micro_tcp.IoManager.Lifecycle.Calls.{Call, starts, stops, noted, perform}

-- The manager is destroyed behind the calls.
pub perform_destroy : List Call → IoManager → Result (List Thread)
perform_destroy cs m = perform cs m >>= λ y. destroy y.1

perform_destroy-starts :
    (cs : List Call) (o : Result (Option Exception × IoManager))
    → ((o >>= λ x. perform cs x.1 >>= noted x.0) >>= λ y. destroy y.1)
      ≡ (o >>= λ x. perform_destroy cs x.1)
unfolding perform_destroy
perform_destroy-starts cs (ok x) = after (perform cs x.1)
  where
    after :
        (o : Result (List Exception × IoManager))
        → ((o >>= noted x.0) >>= λ y. destroy y.1) ≡ (o >>= λ y. destroy y.1)
    after (ok y) = refl
    after (throw e) = refl
perform_destroy-starts cs (throw e) = refl

perform_destroy-stops :
    (cs : List Call) (o : Result IoManager)
    → ((o >>= perform cs) >>= λ y. destroy y.1) ≡ (o >>= perform_destroy cs)
unfolding perform_destroy
perform_destroy-stops cs (ok m) = refl
perform_destroy-stops cs (throw e) = refl

-- Whether some call of these cuts a start off: the manager is inactive (`active` says whether it is in
-- front of the calls), the vector can hold the threads, and the system starts at least one of them but
-- not all.
unfoldable pub cuts : Bool → List Call → Bool
cuts active [] = false
cuts active (stops ∷ cs) = cuts false cs
cuts true (starts r n ∷ cs) = cuts true cs
cuts false (starts r n ∷ cs) =
    if ltb r.max_size n
    then cuts false cs
    else if ltb r.threads n
    then (if ltb 0 r.threads then true else cuts false cs)
    else cuts true cs

abbrev pub verdict : Bool → Result (List Thread)
verdict true = throw terminate
verdict false = ok []

destroy_inactive : (m : IoManager) → m.active ≡ false → destroy m ≡ clear_threads m.threads
unfolding destroy
destroy_inactive m e = stopped (stop m) (stop_inactive m e)
  where
    stopped :
        (o : Result IoManager)
        → o ≡ ok m
        → elim o as (λ _. Result (List Thread)) [
          | ok m' ↦ clear_threads m'.threads
          | throw x ↦ throw terminate
        ]
          ≡ clear_threads m.threads
    stopped o k = rw k refl

-- A manager that a start has left with joinable threads is beyond repair.
torn :
    (cs : List Call) (m : IoManager) (ts : List Thread)
    → m.active ≡ false
    → m.threads ≡ joinable ∷ ts
    → perform_destroy cs m ≡ throw terminate
unfolding perform perform_destroy clear_threads start
torn [] m ts e j = destroy_inactive m e ∙ rw j refl
torn (starts r n ∷ cs) m ts e j = rw (e, j) refl
torn (stops ∷ cs) m ts e j = rw (stop_inactive m e) (torn cs m ts e j)

-- An active manager is managed, and an inactive one has joined its threads.
record IsTidy (m : IoManager) : Type 0 where
  running : m.stopped ≡ false
  live : m.active ≡ true → IsManaged m
  dead : m.active ≡ false → All (λ t. t ≡ joined) m.threads

IsManaged-IsTidy : (m : IoManager) → IsManaged m → IsTidy m
IsManaged-IsTidy m v = record { running = v.running; live = λ _. v; dead = v.dead }

empty-IsTidy : (m : IoManager) → m.stopped ≡ false → m.active ≡ false → m.threads ≡ [] → IsTidy m
empty-IsTidy m s a t = record {
  running = s;
  live = λ (e : m.active ≡ true). cc (a, e);
  dead = λ _. rw t tt;
}

spawn_short :
    (startable n : ℕ) (ts : List Thread)
    → startable < n
    → spawn startable n ts ≡ (some system_error, ts ++ replicate startable joinable)
unfolding spawn
spawn_short startable zero ts l = absurd (omega arith)
spawn_short zero (suc n) ts l = rw append-nil refl
spawn_short (suc startable) (suc n) ts l =
    spawn_short startable n (ts ++ joinable ∷ []) (omega arith)
    ∙ rw (append_assoc ts (joinable ∷ []) (replicate startable joinable)) refl

-- What the calls behind a call come to, from any tidy manager.
abbrev Settles : List Call → Type 0
Settles cs =
    (m : IoManager) (b : Bool)
    → m.active ≡ b
    → IsTidy m
    → perform_destroy cs m ≡ verdict (cuts b cs)

Settles-granted :
    (n : ℕ) (cs : List Call) (o : Result (Option Exception × IoManager))
    → Returns (IsStarted n) o
    → Settles cs
    → (o >>= λ x. perform_destroy cs x.1) ≡ verdict (cuts true cs)
Settles-granted n cs (ok (e, m)) (_, v, a, _) h = h m true a (IsManaged-IsTidy m v)
Settles-granted n cs (throw x) f h = absurd f

Settles-stopped :
    (n : ℕ) (cs : List Call) (o : Result IoManager)
    → Returns (λ m'. IsManaged m' × (m'.active ≡ false) × (length m'.threads ≡ n)) o
    → Settles cs
    → (o >>= perform_destroy cs) ≡ verdict (cuts false cs)
Settles-stopped n cs (ok m) (v, a, _) h = h m false a (IsManaged-IsTidy m v)
Settles-stopped n cs (throw x) f h = absurd f

-- A start that the system cannot grant, of an inactive manager: with `k` threads started.
Settles-short :
    (k : ℕ) (cs : List Call) (m : IoManager)
    → m.stopped ≡ false
    → m.active ≡ false
    → m.threads ≡ replicate k joinable
    → Settles cs
    → perform_destroy cs m ≡ verdict (if ltb 0 k then true else cuts false cs)
Settles-short zero cs m s a t h = h m false a (empty-IsTidy m s a t)
Settles-short (suc k) cs m s a t h =
    torn cs m (replicate k joinable) a t ∙ rw (ltb-true 0 (suc k) (omega arith)) refl

Settles-start :
    (r : Resources) (n : ℕ) (cs : List Call) (m : IoManager)
    → m.active ≡ false
    → IsTidy m
    → Settles cs
    → (start r n m >>= λ x. perform_destroy cs x.1) ≡ verdict (cuts false (starts r n ∷ cs))
unfolding cuts set_active
Settles-start r n cs m e v h = elim (Bool-cases (ltb r.max_size n)) [
  | inl big ↦
      rw (start_inactive r n m (v.dead e) e, big)
        (h (record m { work = true; threads = [] }) false e (empty-IsTidy _ v.running e refl))
  | inr fits ↦ elim (Bool-cases (ltb r.threads n)) [
    | inl few ↦
        rw (start_inactive r n m (v.dead e) e, fits, few, spawn_short r.threads n [] (ground arith))
          (Settles-short r.threads cs
            (record m { work = true; threads = replicate r.threads joinable }) v.running e refl h)
    | inr enough ↦
        rw (fits, enough)
          (Settles-granted n cs (start r n m)
            (start_granted r n m (ground arith, ground arith) v.running (v.dead e) e) h)
  ]
]

Settles-lem : (cs : List Call) → Settles cs
unfolding perform_destroy perform cuts
Settles-lem [] m true e v = destroy_lem m (v.live e)
Settles-lem [] m false e v = destroy_inactive m e ∙ clear_threads-joined m.threads (v.dead e)
Settles-lem (starts r n ∷ cs) m true e v =
    perform_destroy-starts cs (start r n m) ∙ rw (start_active r n m e) (Settles-lem cs m true e v)
Settles-lem (starts r n ∷ cs) m false e v =
    perform_destroy-starts cs (start r n m) ∙ Settles-start r n cs m e v (Settles-lem cs)
Settles-lem (stops ∷ cs) m true e v =
    perform_destroy-stops cs (stop m)
    ∙ Settles-stopped _ cs (stop m) (stop-IsManaged m (v.live e)) (Settles-lem cs)
Settles-lem (stops ∷ cs) m false e v =
    perform_destroy-stops cs (stop m) ∙ rw (stop_inactive m e) (Settles-lem cs m false e v)

-- What becomes of a new manager behind any calls of start and stop, in any order, by a caller that
-- catches the exceptions of start, whatever threads the system can start: if one of the calls is cut
-- off, which is a start of the inactive manager that gets at least one thread but not all, the program
-- ends by std::terminate, at a later start or in the destructor; otherwise the manager is destroyed
-- without an exception, and no joinable thread is destroyed.
pub destroy_managed :
    (cs : List Call) → (perform cs io_manager >>= λ y. destroy y.1) ≡ verdict (cuts false cs)
unfolding io_manager perform_destroy
destroy_managed cs =
    Settles-lem cs io_manager false refl (IsManaged-IsTidy io_manager io_manager-IsManaged)

-- A start that was not cut off has started its threads.
abbrev pub HasStarted : ℕ → Option Exception × IoManager → Type 0
HasStarted n (none, m) = IsStarted n (none, m)
HasStarted n (some e, m) = Unit

HasStarted-granted :
    (n : ℕ) (o : Result (Option Exception × IoManager))
    → Returns (IsStarted n) o
    → Returns (HasStarted n) o
HasStarted-granted n (ok (none, m)) h = h
HasStarted-granted n (ok (some e, m)) h = tt
HasStarted-granted n (throw e) h = h

-- `start` on a new manager, whatever threads the system can start: if it returns without an exception,
-- the manager is managed and active and has the threads that were asked for.
pub start_new : (r : Resources) (n : ℕ) → Returns (HasStarted n) (start r n io_manager)
unfolding io_manager set_active
start_new r n = elim (Bool-cases (ltb r.max_size n)) [
  | inl big ↦ rw (start_inactive r n io_manager tt refl, big) tt
  | inr fits ↦ elim (Bool-cases (ltb r.threads n)) [
    | inl few ↦
        rw (start_inactive r n io_manager tt refl, fits, spawn_short r.threads n [] (ground arith))
          tt
    | inr enough ↦
        HasStarted-granted n (start r n io_manager)
          (start_granted r n io_manager (ground arith, ground arith) refl tt refl)
  ]
]
