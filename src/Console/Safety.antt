-- ===== src/Console/Safety.antt =====
-- Which commands end the program by an exception.
use micro_tcp.Common.{ℕ, ◌≤◌, List, none, ◌≡◌, String, Result, ok, throw, bad_lexical_cast, drop}
use micro_tcp.Platform.{Platform}
use micro_tcp.World.{World}
use micro_tcp.Client
use micro_tcp.Console.{Command, server_set_port, command, App, getline}
use micro_tcp.Console.System.{IsRunning}

-- A command has run, the manager is the same, and lines were only read; or its port was none.
abbrev Keeps :
    (p : Platform) → Command → List String → App p → Result (List String × App p) → Type 0
Keeps p c ls a (ok (ls', b)) = (b.io_manager ≡ a.io_manager) × ((j : ℕ) × (ls' ≡ drop j ls))
Keeps p c ls a (throw e) =
    (e ≡ bad_lexical_cast) × (c ≡ server_set_port) × (p.to_port (getline ls).0 ≡ none)

abbrev IsOk : {A : Type 0} → Result A → Type 0
IsOk (ok a) = Unit
IsOk (throw e) = ⊥

-- A command has run in a program that goes on to run, and has read the line of the command and perhaps
-- lines behind it; or it was server_set_port, and the line behind it is no port, or the input ends
-- there and the empty text is none.
abbrev pub HasDone : (p : Platform) → List String → Result (List String × App p) → Type 0
HasDone p ls (ok (rest, b)) = IsRunning p b × ((k : ℕ) × (1 ≤ k) × (rest ≡ drop k ls))
HasDone p ls (throw e) =
    (e ≡ bad_lexical_cast)
    × (command (getline ls).0 ≡ server_set_port)
    × (p.to_port (getline (getline ls).1).0 ≡ none)
