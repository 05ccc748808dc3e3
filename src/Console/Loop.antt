-- ===== src/Console/Loop.antt =====
-- Where the loop of `main` does not end.
use micro_tcp.Common.{
  ℕ, zero, suc, ◌+◌, List, [], ◌≡◌, refl, String, Result, ok, throw, arith, length, length-append,
}
use micro_tcp.Platform.{Platform}
use micro_tcp.World.{Piece}
use micro_tcp.Console.{command, App, say, dispatch, Outcome, returned, looping, console}

-- The loop goes on after `n` rounds, at the end of its input, with `n` more lines of output.
abbrev pub HasLooped : (p : Platform) → ℕ → App p → Result (Outcome p) → Type 0
HasLooped p n a (ok (looping ls b)) =
    (ls ≡ [])
    × (length b.world.output ≡ n + length a.world.output)
    × (b.server ≡ a.server)
    × (b.client ≡ a.client)
    × (b.io_manager ≡ a.io_manager)
HasLooped p n a (ok (returned b)) = ⊥
HasLooped p n a (throw e) = ⊥

looped_again :
    (p : Platform) (n : ℕ) (a : App p) (text : List Piece) (o : Result (Outcome p))
    → HasLooped p n (say p text a) o
    → HasLooped p (suc n) a o
looped_again p n a text (ok (looping ls b)) (l, e, s, c, m) =
    (l, omega (arith, length-append {0}), s, c, m)
looped_again p n a text (ok (returned b)) h = h
looped_again p n a text (throw x) h = h

-- At the end of the input the loop of main does not end: after any number of rounds it has printed
-- as many more lines, and the server, the client and the manager are as they were.
pub console_eof :
    (p : Platform) (address : String) (port n : ℕ) (a : App p)
    → HasLooped p n a (console p address port n [] a)
unfolding console command dispatch
console_eof p address port zero a = (refl, omega arith, refl, refl, refl)
console_eof p address port (suc n) a =
    looped_again p n a _ (console p address port n [] _) (console_eof p address port n _)
