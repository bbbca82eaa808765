-- ===== src/Shmtx/Tests.antt =====
-- src/core/ngx_shmtx.c: runs of the processes 3 and 7 on a machine with one CPU.
use nginx_inside_out.Prelude.{none, some, ℕ, ◌≡◌, refl, true, false, arith, ◌==◌, if◌then◌else◌}
use nginx_inside_out.Shmtx.{
  Mutex, Place, outside, first, testing, clearing, discounting, waiting, holding, failed,
  shmtx_create, shmtx_destroy, run,
}
use nginx_inside_out.Shmtx.Steps.{
  System, start_system, lock, unlock, moved, runs, calls, Steps, none_more, one_more,
}
use nginx_inside_out.Shmtx.Exclusion.{at_most_one}
use nginx_inside_out.Shmtx.Progress.{Reached, unlock-Reached, lock-Reached}
use nginx_inside_out.Shmtx.Trap.{Trapped, counted-Trapped}

abbrev mutex : Mutex
mutex = record { spin = 2048; semaphore = true }

created_mutex : shmtx_create true (record { spin = 2048; semaphore = false }) ≡ mutex
unfolding shmtx_create
created_mutex = refl

-- A mutex that was created with its semaphore is destroyed once, and not a second time.
destroyed_once : shmtx_destroy true mutex ≡ some false
unfolding shmtx_destroy
destroyed_once = refl

destroyed_twice : shmtx_destroy false mutex ≡ none
unfolding shmtx_destroy
destroyed_twice = refl

abbrev next : ℕ → System → System
next p s = moved s p (run 1 mutex p s.words (s.places p))

abbrev enter : ℕ → Place → System → System
enter p c s = moved s p (s.words, c)

abbrev locked : System
locked = next 3 (next 3 (enter 3 (testing first) start_system))

locked_path : Steps 1 mutex start_system locked
unfolding run
locked_path =
    one_more (one_more (one_more none_more (calls 3 lock)) (runs 3 (omega arith)))
      (runs 3 (omega arith))

locked_place : locked.places 3 ≡ holding
unfolding run
locked_place = refl

at_most_one_example : (◌≡◌ {A = ℕ} 3 3) × (locked.words.lock ≡ 3)
at_most_one_example = at_most_one 1 mutex locked 3 3 locked_path locked_place locked_place

-- 7 finds the lock taken and counts itself; 3 unlocks; 7 gets the lock.
abbrev waiter : System
waiter = next 7 (next 7 (enter 7 (testing first) locked))

abbrev unlocked : System
unlocked = next 3 (enter 3 clearing waiter)

abbrev caught : System
caught = next 7 (next 7 unlocked)

waiter_path : Steps 1 mutex start_system waiter
unfolding run failed
waiter_path =
    one_more (one_more (one_more locked_path (calls 7 lock)) (runs 7 (omega arith)))
      (runs 7 (omega arith))

unlocked_path : Steps 1 mutex start_system unlocked
unfolding run failed
unlocked_path = one_more (one_more waiter_path (calls 3 unlock)) (runs 3 (omega arith))

caught_path : Steps 1 mutex start_system caught
unfolding run failed
caught_path = one_more (one_more unlocked_path (runs 7 (omega arith))) (runs 7 (omega arith))

caught_place : caught.places 7 ≡ discounting
unfolding run failed
caught_place = refl

one_step : Steps 1 mutex caught (next 7 caught)
one_step = one_more none_more (runs 7 (omega arith))

counted-Trapped_example : Trapped 7 (next 7 caught)
counted-Trapped_example =
    counted-Trapped 1 mutex caught (next 7 caught) 7 caught_path caught_place one_step

-- 3 has the lock, and two processes are counted as waiters.
abbrev awaited : System
awaited = record {
  words = record { lock = 3; wait = 2; sem = 0 };
  places = λ p. if p == 3 then holding else outside;
}

unlock-Reached_example : Reached 1 mutex 3 awaited (record { lock = 0; wait = 1; sem = 1 }) outside
unlock-Reached_example =
    unlock-Reached 1 mutex 3 (ground arith) awaited refl refl refl (omega arith) (omega arith)

lock-Reached_example : Reached 4 mutex 7 awaited (record { lock = 3; wait = 3; sem = 0 }) waiting
lock-Reached_example =
    lock-Reached 4 mutex 7 (ground arith) awaited refl (ground arith) (omega arith) refl
