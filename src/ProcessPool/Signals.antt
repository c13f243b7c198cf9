-- ===== src/ProcessPool/Signals.antt =====
-- Which processes a pool interrupts and waits for.
use simple_kv_svr.Base.{ℕ, ◌<◌, Option, none, some, List, [], ◌∷◌, map, ◌≡◌, refl, ap, arith}
use simple_kv_svr.ProcessPool.{Effect, start_all, kill_all, wait_all}

-- The processes that came to be, and the signals for what `fork` returned.
abbrev pub children : List (Option ℕ) → List ℕ
children [] = []
children (none ∷ forks) = children forks
children (some pid ∷ forks) = pid ∷ children forks

abbrev pub signal : Option ℕ → Effect
signal none = Effect.interrupt_all
signal (some pid) = Effect.interrupt pid

-- `fork` returns a process id above 1 to the parent.
abbrev pub AreProcesses : List (Option ℕ) → Type 0
AreProcesses [] = Unit {0}
AreProcesses (none ∷ forks) = AreProcesses forks
AreProcesses (some pid ∷ forks) = (1 < pid) × AreProcesses forks

kill_all-signal : (forks : List (Option ℕ)) → kill_all (start_all forks) ≡ map signal forks
unfolding kill_all start_all
kill_all-signal [] = refl
kill_all-signal (none ∷ forks) = ap (λ l. Effect.interrupt_all ∷ l) (kill_all-signal forks)
kill_all-signal (some pid ∷ forks) = ap (λ l. Effect.interrupt pid ∷ l) (kill_all-signal forks)

wait_all-children :
    (forks : List (Option ℕ))
    → AreProcesses forks
    → wait_all (start_all forks) ≡ map (λ pid. Effect.waited pid) (children forks)
unfolding wait_all start_all
wait_all-children [] v = refl
wait_all-children (none ∷ forks) v = wait_all-children forks v
wait_all-children (some pid ∷ forks) v = ground (arith, wait_all-children forks)

-- After `Start`, whatever `fork` returned for each process: `WaitAll` waits for every child in turn and
-- for nothing else; `KillAll` interrupts every child, but for each fork that failed it interrupts every
-- process that it may.
pub pool_signals :
    (forks : List (Option ℕ))
    → AreProcesses forks
    → (wait_all (start_all forks) ≡ map (λ pid. Effect.waited pid) (children forks))
      × (kill_all (start_all forks) ≡ map signal forks)
pool_signals forks v = (wait_all-children forks v, kill_all-signal forks)
