-- ===== src/IoManager/Lifecycle/Calls.antt =====
-- Sequences of calls of `start` and `stop`, where the system may also fail to start a thread.
use micro_tcp.Common.{
  ℕ, ◌≡◌, refl, false, List, [], ◌∷◌, length, Result, ok, throw, Exception, Option, none, some,
  ◌>>=◌,
}
use micro_tcp.IoManager.{Resources, IoManager, start, stop}
use micro_tcp.IoManager.Lifecycle.{
  IsManaged, Returns, IsGranted, IsStarted, start-IsManaged, stop-IsManaged,
}

-- `starts r n` is a call of `start` for `n` threads, in which the system has `r`.
pub data Call : Type 0 where
  starts : Resources → ℕ → Call
  stops : Call

abbrev pub caught : Option Exception → List Exception → List Exception
caught none es = es
caught (some e) es = e ∷ es

abbrev pub noted :
    Option Exception → List Exception × IoManager → Result (List Exception × IoManager)
noted e y = ok (caught e y.0, y.1)

-- Calls of `start` and `stop`, one after the other, by a caller that catches the exceptions of `start`
-- and goes on: the exceptions, and the manager that is left.
unfoldable pub perform : List Call → IoManager → Result (List Exception × IoManager)
perform [] m = ok ([], m)
perform (starts r n ∷ cs) m = start r n m >>= λ x. perform cs x.1 >>= noted x.0
perform (stops ∷ cs) m = stop m >>= perform cs

abbrev pub AllGranted : List Call → Type 0
AllGranted [] = Unit
AllGranted (starts r n ∷ cs) = IsGranted r n × AllGranted cs
AllGranted (stops ∷ cs) = AllGranted cs

abbrev pub IsPerformed : List Exception × IoManager → Type 0
IsPerformed (es, m) = (es ≡ []) × IsManaged m

IsPerformed-starts :
    (k : ℕ) (cs : List Call) (o : Result (Option Exception × IoManager))
    → Returns (IsStarted k) o
    → ((m : IoManager) → IsManaged m → Returns IsPerformed (perform cs m))
    → Returns IsPerformed (o >>= λ x. perform cs x.1 >>= noted x.0)
IsPerformed-starts k cs (ok (some e, m)) (f, _, _, _) h = cc
IsPerformed-starts k cs (ok (none, m)) (f, v, _, _) h = after (perform cs m) (h m v)
  where
    after :
        (o : Result (List Exception × IoManager))
        → Returns IsPerformed o
        → Returns IsPerformed (o >>= noted none)
    after (ok y) g = g
    after (throw e) g = g
IsPerformed-starts k cs (throw e) g h = g

IsPerformed-stops :
    (n : ℕ) (cs : List Call) (o : Result IoManager)
    → Returns (λ m'. IsManaged m' × (m'.active ≡ false) × (length m'.threads ≡ n)) o
    → ((m : IoManager) → IsManaged m → Returns IsPerformed (perform cs m))
    → Returns IsPerformed (o >>= perform cs)
IsPerformed-stops n cs (ok m) (v, _, _) h = h m v
IsPerformed-stops n cs (throw e) g h = g

-- Any calls of start and stop on a managed manager, in any order, where the system can start the
-- threads that each call of start asks for: the calls return without an exception and leave the
-- manager managed. No joinable thread is destroyed, no thread is joined twice, the service is not left
-- stopped, and the work informer is there exactly while the manager is active.
pub perform-IsManaged :
    (cs : List Call) (m : IoManager)
    → AllGranted cs
    → IsManaged m
    → Returns IsPerformed (perform cs m)
unfolding perform
perform-IsManaged [] m g v = (refl, v)
perform-IsManaged (starts r n ∷ cs) m g v =
    IsPerformed-starts _ cs (start r n m) (start-IsManaged r n m g.0 v)
      (λ m' v'. perform-IsManaged cs m' g.1 v')
perform-IsManaged (stops ∷ cs) m g v =
    IsPerformed-stops _ cs (stop m) (stop-IsManaged m v) (λ m' v'. perform-IsManaged cs m' g v')
