-- ===== src/IoManager/Lifecycle.antt =====
-- Starting and stopping the manager, where the system starts as many threads as are asked for.
pub mod Calls
pub mod Cuts
use native.Mathlib.Nat.{add-zero}
use micro_tcp.Common.{
  ℕ, zero, suc, ◌+◌, ◌≤◌, ◌≡◌, refl, true, false, List, [], ◌∷◌, ◌++◌, arith, length, All, ltb,
  ltb-false, Option, none, some, Exception, length_error, All-append, length-append, ◌∙◌, ◌-◌, max,
  Result, ok, throw, terminate, ◌>>=◌, Bool-cases, inl, inr, if◌then◌else◌,
}
use micro_tcp.IoManager.{
  Resources, set_active, Thread, joinable, joined, IoManager, io_manager, default_num_threads,
  clear_threads, spawn, join_all, start, stop, destroy,
}

-- An active manager has its work informer, and all its threads can be joined; an inactive one has
-- none, and all its threads are joined. The service is not left stopped.
pub record IsManaged (m : IoManager) : Type 0 where
  pub running : m.stopped ≡ false
  pub informed : m.work ≡ m.active
  pub live : m.active ≡ true → All (λ t. t ≡ joinable) m.threads
  pub dead : m.active ≡ false → All (λ t. t ≡ joined) m.threads

-- A call that returns, with a value that has the property.
abbrev pub Returns {ℓ} : {A : Type ℓ} → (A → Type 0) → Result A → Type 0
Returns P (ok m) = P m
Returns P (throw e) = ⊥

pub clear_threads-joined : (ts : List Thread) → All (λ t. t ≡ joined) ts → clear_threads ts ≡ ok []
unfolding clear_threads
clear_threads-joined [] h = refl
clear_threads-joined (joinable ∷ ts) h = cc (h.0)
clear_threads-joined (joined ∷ ts) h = clear_threads-joined ts h.1

-- The system can start `n` more threads, and the vector can hold as many.
abbrev pub IsGranted : Resources → ℕ → Type 0
IsGranted r n = (n ≤ r.threads) × (n ≤ r.max_size)

spawn-granted :
    (startable n : ℕ) (ts : List Thread)
    → n ≤ startable
    → All (λ t. t ≡ joinable) ts
    → ((spawn startable n ts).0 ≡ none)
      × All (λ t. t ≡ joinable) (spawn startable n ts).1
      × (length (spawn startable n ts).1 ≡ n + length ts)
unfolding spawn
spawn-granted startable zero ts l h = (refl, h, omega arith)
spawn-granted zero (suc n) ts l h = absurd (omega arith)
spawn-granted (suc startable) (suc n) ts l h =
    let (e, a, k) =
      spawn-granted startable n (ts ++ joinable ∷ []) (omega arith)
        (All-append _ ts (joinable ∷ []) (h, (refl, tt))) in
    (e, a, omega (arith, k, length-append {0}))

abbrev Joins : List Thread → Result (List Thread) → Type 0
Joins ts (ok us) = All (λ t. t ≡ joined) us × (length us ≡ length ts)
Joins ts (throw e) = ⊥

join_all_joinable : (ts : List Thread) → All (λ t. t ≡ joinable) ts → Joins ts (join_all ts)
unfolding join_all
join_all_joinable [] h = (tt, refl)
join_all_joinable (joined ∷ ts) h = cc (h.0)
join_all_joinable (joinable ∷ ts) h = after (join_all ts) (join_all_joinable ts h.1)
  where
    after :
        (o : Result (List Thread))
        → Joins ts o
        → Joins (joinable ∷ ts) (o >>= λ rest. ok (joined ∷ rest))
    after (ok us) (a, l) = ((refl, a), omega arith)
    after (throw e) j = j

pub start_inactive :
    (r : Resources) (n : ℕ) (m : IoManager)
    → All (λ t. t ≡ joined) m.threads
    → m.active ≡ false
    → start r n m
      ≡ ok (
          if ltb r.max_size n
          then (some length_error, record m { work = true; threads = [] })
          else set_active (record m { work = true; threads = [] }) (spawn r.threads n []))
unfolding start
start_inactive r n m d e = rw (e, clear_threads-joined m.threads d)

pub start_active :
    (r : Resources) (n : ℕ) (m : IoManager) → m.active ≡ true → start r n m ≡ ok (none, m)
unfolding start
start_active r n m e = rw e

-- A start that has returned without an exception, of `k` threads.
abbrev pub IsStarted : ℕ → Option Exception × IoManager → Type 0
IsStarted k (e, m) = (e ≡ none) × IsManaged m × (m.active ≡ true) × (length m.threads ≡ k)

set_active-IsStarted :
    (n : ℕ) (m : IoManager) (x : Option Exception × List Thread)
    → m.stopped ≡ false
    → m.work ≡ true
    → x.0 ≡ none
    → All (λ t. t ≡ joinable) x.1
    → length x.1 ≡ n
    → IsStarted n (set_active m x)
unfolding set_active
set_active-IsStarted n m (none, ts) s w e a l = (
  refl,
  record { running = s; informed = w; live = λ _. a; dead = λ (f : true ≡ false). cc },
  refl,
  l,
)
set_active-IsStarted n m (some x, ts) s w e a l = cc

pub start_granted :
    (r : Resources) (n : ℕ) (m : IoManager)
    → IsGranted r n
    → m.stopped ≡ false
    → All (λ t. t ≡ joined) m.threads
    → m.active ≡ false
    → Returns (IsStarted n) (start r n m)
start_granted r n m (g, k) running d e =
    let (none_failed, a, l) = spawn-granted r.threads n [] g tt in
    rw (start_inactive r n m d e, ltb-false r.max_size n k)
      (set_active-IsStarted n (record m { work = true; threads = [] }) (spawn r.threads n [])
        running refl none_failed a (l ∙ add-zero n))

-- `start` on a managed object, of threads that the system grants, returns with it active and managed,
-- without an exception. An inactive one has got as many threads as were asked for, and no joinable
-- thread was destroyed; an active one is as it was.
pub start-IsManaged :
    (r : Resources) (n : ℕ) (m : IoManager)
    → IsGranted r n
    → IsManaged m
    → Returns (IsStarted (if m.active then length m.threads else n)) (start r n m)
start-IsManaged r n m g v = elim (Bool-cases m.active) [
  | inl e ↦ rw (start_active r n m e) (refl, v, e, rw e refl)
  | inr e ↦
      let asked : (if m.active then length m.threads else n) ≡ n = rw e refl in
      rw asked (start_granted r n m g v.running (v.dead e) e)
]

stop_joined :
    (m : IoManager) (o : Result (List Thread))
    → Joins m.threads o
    → Returns
        (λ m'. IsManaged m' × (m'.active ≡ false) × (length m'.threads ≡ length m.threads))
        (o >>= λ ts. ok (record m { work = false; stopped = false; threads = ts; active = false }))
stop_joined m (ok us) (a, l) = (
  record { running = refl; informed = refl; live = λ (f : false ≡ true). cc; dead = λ _. a },
  refl,
  l,
)
stop_joined m (throw e) j = j

pub stop_inactive : (m : IoManager) → m.active ≡ false → stop m ≡ ok m
unfolding stop
stop_inactive m e = simp e

-- `stop` on a managed object returns with it inactive and managed, with as many threads, which are
-- all joined, and without its work informer.
pub stop-IsManaged :
    (m : IoManager)
    → IsManaged m
    → Returns
        (λ m'. IsManaged m' × (m'.active ≡ false) × (length m'.threads ≡ length m.threads))
        (stop m)
unfolding stop
stop-IsManaged m v = elim (Bool-cases m.active) [
  | inl e ↦ rw e (stop_joined m (join_all m.threads) (join_all_joinable m.threads (v.live e)))
  | inr e ↦ rw (stop_inactive m e) (v, e, refl)
]

pub io_manager-IsManaged : IsManaged io_manager
unfolding io_manager
io_manager-IsManaged = record {
  running = refl;
  informed = refl;
  live = λ (f : false ≡ true). cc;
  dead = λ _. tt;
}

destroy_stopped :
    (m : IoManager) (o : Result IoManager)
    → Returns (λ m'. IsManaged m' × (m'.active ≡ false) × (length m'.threads ≡ length m.threads)) o
    → elim o as (λ _. Result (List Thread)) [
      | ok m' ↦ clear_threads m'.threads
      | throw e ↦ throw terminate
    ]
      ≡ ok []
destroy_stopped m (ok m') (v, e, _) = clear_threads-joined m'.threads (v.dead e)
destroy_stopped m (throw e) r = absurd r

-- A managed object can be destroyed, also while its threads run.
pub destroy_lem : (m : IoManager) → IsManaged m → destroy m ≡ ok []
unfolding destroy
destroy_lem m v = destroy_stopped m (stop m) (stop-IsManaged m v)
