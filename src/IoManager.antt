-- ===== src/IoManager.antt =====
-- include/micro_tcp/io_manager.hpp and io_manager.cpp: the `io_service` and the threads that run it.
pub mod Lifecycle
use micro_tcp.Common.{
  ℕ, zero, suc, ◌-◌, Bool, true, false, not, List, [], ◌∷◌, ◌++◌, max, if◌then◌else◌, Result, ok,
  throw, system_error, terminate, length_error, Exception, Option, none, some, ltb, ◌>>=◌,
}

-- A `std::thread` is joinable from its start until it is joined.
pub data Thread : Type 0 where
  joinable joined : Thread

-- `stopped` is the state of the `io_service`; `work` says whether it has its work informer.
pub record IoManager : Type 0 where
  pub active : Bool
  pub stopped : Bool
  pub work : Bool
  pub threads : List Thread

-- The constructor stops the service and resets it.
unfoldable pub io_manager : IoManager
io_manager = record { active = false; stopped = false; work = false; threads = [] }

unfoldable pub is_active : IoManager → Bool
is_active m = m.active

-- The default argument of `start`, for the `hardware_concurrency` of the machine.
unfoldable pub default_num_threads : ℕ → ℕ
default_num_threads hardware_concurrency = max hardware_concurrency 2 - 1

-- `std::vector<std::thread>::clear`: the destructor of a joinable thread calls `std::terminate`.
unfoldable pub clear_threads : List Thread → Result (List Thread)
clear_threads [] = ok []
clear_threads (joinable ∷ ts) = throw terminate
clear_threads (joined ∷ ts) = clear_threads ts

-- What the system has for a call of `start`: the most elements that the vector can reserve, and how
-- many more threads can be started. A larger `reserve` throws, and so does the constructor of
-- `std::thread` for the thread behind the last one that can be started.
pub record Resources : Type 0 where
  pub max_size : ℕ
  pub threads : ℕ

-- The loop of `start`: one thread more in each round, while the system can start one. The threads
-- that were started stay in the vector, also if the constructor of the next one throws.
unfoldable pub spawn : ℕ → ℕ → List Thread → Option Exception × List Thread
spawn startable zero ts = (none, ts)
spawn zero (suc n) ts = (some system_error, ts)
spawn (suc startable) (suc n) ts = spawn startable n (ts ++ joinable ∷ [])

-- The loop of `stop`; `join` throws on a thread that is not joinable.
unfoldable pub join_all : List Thread → Result (List Thread)
join_all [] = ok []
join_all (joined ∷ ts) = throw system_error
join_all (joinable ∷ ts) = do rest ← join_all ts; ok (joined ∷ rest)

-- The last line of `start`, which an exception of the loop skips.
unfoldable pub set_active :
    IoManager → Option Exception × List Thread → Option Exception × IoManager
set_active m (none, ts) = (none, record m { threads = ts; active = true })
set_active m (some e, ts) = (some e, record m { threads = ts })

-- An exception that leaves `start` leaves the manager behind: it is the first component, and `none`
-- is a return. `throw` is the end of the program by `std::terminate`.
unfoldable pub start : Resources → ℕ → IoManager → Result (Option Exception × IoManager)
unfolding is_active spawn set_active
start r num_threads m =
    if not (is_active m)
    then (do
      ts ← clear_threads m.threads
      let m1 = record m { work = true; threads = ts }
      ok (
          if ltb r.max_size num_threads
          then (some length_error, m1)
          else set_active m1 (spawn r.threads num_threads ts)))
    else ok (none, m)

-- The service is stopped, the threads return from `run` and are joined, and the service is reset.
unfoldable pub stop : IoManager → Result IoManager
unfolding is_active
stop m =
    if is_active m
    then (do
      let m1 = record m { work = false; stopped = true }
      ts ← join_all m1.threads
      ok (record m1 { threads = ts; stopped = false; active = false }))
    else ok m

-- The destructor calls `stop`, and the vector of the threads is destroyed behind it. An exception
-- that leaves a destructor calls `std::terminate`.
unfoldable pub destroy : IoManager → Result (List Thread)
destroy m = elim (stop m) [ ok m' ↦ clear_threads m'.threads | throw e ↦ throw terminate ]
