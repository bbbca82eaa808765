-- ===== src/Shmtx.antt =====
-- src/core/ngx_shmtx.c and ngx_shmtx.h: the mutex between processes. A process is its pid and the
-- place in the code that it has reached; each access to the shared words is a step of its own.
pub mod Steps
pub mod Places
pub mod Exclusion
pub mod Trap
pub mod Progress
mod Tests
use nginx_inside_out.Prelude.{
  ℕ, ◌+◌, ◌-◌, ◌*◌, ◌%◌, ◌^◌, Option, none, some, Bool, true, false, ◌||◌, ltb, leb, ◌==◌,
  if◌then◌else◌,
}

-- ngx_shmtx_t, but for its pointers
pub record Mutex : Type 0 where
  pub spin : ℕ
  pub semaphore : Bool

-- the words of ngx_shmtx_sh_t, and the value of the POSIX semaphore
pub record Words : Type 0 where
  pub lock : ℕ
  pub wait : ℕ
  pub sem : ℕ

-- The places at which the lock is tried: ngx_shmtx_trylock, the head of the loop of ngx_shmtx_lock,
-- its spinning with `n` pauses, and behind the counting of the waiter.
pub data Attempt : Type 0 where
  trying : Attempt
  first : Attempt
  spinning : (n : ℕ) → Attempt
  counted : Attempt

-- What a process does next: nothing, with or without the lock, or nothing any more; `*mtx->lock == 0`
-- and the ngx_atomic_cmp_set behind it; the two ngx_atomic_fetch_add, sem_wait; the
-- ngx_atomic_cmp_set of ngx_shmtx_unlock and ngx_shmtx_force_unlock; the read of `wait`, the
-- ngx_atomic_cmp_set and the sem_post of ngx_shmtx_wakeup.
pub data Place : Type 0 where
  outside : Place
  holding : Place
  dead : Place
  testing : Attempt → Place
  swapping : Attempt → Place
  counting : Place
  discounting : Place
  waiting : Place
  clearing : Place
  forcing : (pid : ℕ) → Place
  reading : Place
  waking : (wait : ℕ) → Place
  posting : Place

-- ngx_shmtx_create, with `ok` where sem_init succeeds
unfoldable pub shmtx_create : (ok : Bool) → Mutex → Mutex
shmtx_create ok mtx =
    if mtx.spin == 2 ^ 64 - 1 then mtx else if ok then record mtx { semaphore = true } else mtx

-- ngx_shmtx_destroy: whether the semaphore is one after it, by whether it is one before; `none` is a
-- call of sem_destroy on something else.
unfoldable pub shmtx_destroy : (initialised : Bool) → Mutex → Option Bool
shmtx_destroy initialised mtx =
    if mtx.semaphore then (if initialised then some false else none) else some initialised

-- `if (mtx->semaphore) { … } ngx_sched_yield();`
abbrev pub after_spin : Mutex → Place
after_spin mtx = if mtx.semaphore then counting else testing first

-- `n < mtx->spin`
abbrev pub spin_from : Mutex → (n : ℕ) → Place
spin_from mtx n = if ltb n mtx.spin then testing (spinning n) else after_spin mtx

-- where a process goes that did not get the lock
unfoldable pub failed : (ncpu : ℕ) → Mutex → Attempt → Place
failed ncpu mtx trying = outside
failed ncpu mtx first = if ltb 1 ncpu then spin_from mtx 1 else after_spin mtx
failed ncpu mtx (spinning n) = spin_from mtx (n * 2 % 2 ^ 64)
failed ncpu mtx counted = waiting

-- where a process goes that did
abbrev pub succeeded : Attempt → Place
succeeded counted = discounting
succeeded _ = holding

-- `if (!mtx->semaphore) { return; }` of ngx_shmtx_wakeup
abbrev pub wakeup : Mutex → Place
wakeup mtx = if mtx.semaphore then reading else outside

-- `ngx_atomic_cmp_set(mtx->lock, pid, 0)` and what follows
abbrev pub clear : Mutex → (pid : ℕ) → Words → Words × Place
clear mtx pid w = if w.lock == pid then (record w { lock = 0 }, wakeup mtx) else (w, outside)

-- The next step of the process `pid`, which blocks in sem_wait where the semaphore is 0.
unfoldable pub run : (ncpu : ℕ) → Mutex → (pid : ℕ) → Words → Place → Words × Place
run ncpu mtx pid w outside = (w, outside)
run ncpu mtx pid w holding = (w, holding)
run ncpu mtx pid w dead = (w, dead)
run ncpu mtx pid w (testing a) = (w, if w.lock == 0 then swapping a else failed ncpu mtx a)
run ncpu mtx pid w (swapping a) =
    if w.lock == 0 then (record w { lock = pid }, succeeded a) else (w, failed ncpu mtx a)
run ncpu mtx pid w counting = (record w { wait = (w.wait + 1) % 2 ^ 64 }, testing counted)
run ncpu mtx pid w discounting = (record w { wait = (w.wait + (2 ^ 64 - 1)) % 2 ^ 64 }, waiting)
run ncpu mtx pid w waiting =
    if w.sem == 0 then (w, waiting) else (record w { sem = w.sem - 1 }, testing first)
run ncpu mtx pid w clearing = clear mtx pid w
run ncpu mtx pid w (forcing other) = clear mtx other w
run ncpu mtx pid w reading =
    (w, if w.wait == 0 || leb (2 ^ 63) w.wait then outside else waking w.wait)
run ncpu mtx pid w (waking v) =
    if w.wait == v then (record w { wait = v - 1 }, posting) else (w, reading)
run ncpu mtx pid w posting = (record w { sem = w.sem + 1 }, outside)
