-- ===== src/Shmtx/Places.antt =====
-- src/core/ngx_shmtx.c: what one step of a process does to the lock word, and where it leads.
use nginx_inside_out.Prelude.{
  ℕ, ◌*◌, ◌%◌, ◌^◌, ◌≡◌, ◌≢◌, ◌⊎◌, inl, inr, refl, false, ◌||◌, arith, ltb, leb, ◌==◌, Bool-cases,
  if_elim,
}
use nginx_inside_out.Shmtx.{
  Mutex, Words, Attempt, trying, first, spinning, counted, Place, outside, holding, dead, testing,
  swapping, counting, discounting, waiting, clearing, forcing, reading, waking, posting, failed,
  after_spin, spin_from, succeeded, clear, run,
}
use nginx_inside_out.Shmtx.Steps.{IsDead}

-- The places of a process that has the lock: the caller of ngx_shmtx_lock or ngx_shmtx_trylock, and
-- the one that got it behind the counting.
abbrev pub Owns : Place → Type 0
Owns holding = Unit {0}
Owns discounting = Unit {0}
Owns _ = ⊥

-- Only the lock of a dead process is forced.
abbrev pub ForcesDead : (ℕ → Place) → Place → Type 0
ForcesDead places (forcing q) = IsDead (places q)
ForcesDead places _ = Unit {0}

pub Owns-dead : (c : Place) → Owns c → IsDead c → ⊥
Owns-dead dead o d = o
Owns-dead _ o d = d

-- What is neither an owner nor forcing.
abbrev pub IsPlain : Place → Type 0
IsPlain holding = ⊥
IsPlain discounting = ⊥
IsPlain (forcing q) = ⊥
IsPlain _ = Unit {0}

module _ (mtx : Mutex) where
  after_spin-IsPlain : IsPlain (after_spin mtx)
  after_spin-IsPlain = if_elim IsPlain mtx.semaphore tt tt

  spin_from-IsPlain : (n : ℕ) → IsPlain (spin_from mtx n)
  spin_from-IsPlain n = if_elim IsPlain (ltb n mtx.spin) tt after_spin-IsPlain

  pub failed-IsPlain : (ncpu : ℕ) (a : Attempt) → IsPlain (failed ncpu mtx a)
  unfolding failed
  failed-IsPlain ncpu trying = tt
  failed-IsPlain ncpu first = if_elim IsPlain (ltb 1 ncpu) (spin_from-IsPlain 1) after_spin-IsPlain
  failed-IsPlain ncpu (spinning n) = spin_from-IsPlain (n * 2 % 2 ^ 64)
  failed-IsPlain ncpu counted = tt

  clear-IsPlain : (p : ℕ) (w : Words) → IsPlain (clear mtx p w).1
  clear-IsPlain p w = elim (Bool-cases (w.lock == p)) [
    | inl e ↦ rw e (if_elim IsPlain mtx.semaphore tt tt)
    | inr e ↦ rw e tt
  ]

pub Owns-plain : (c : Place) → IsPlain c → Owns c → ⊥
Owns-plain holding n o = n
Owns-plain discounting n o = n
Owns-plain _ n o = o

pub ForcesDead-plain : (places : ℕ → Place) (c : Place) → IsPlain c → ForcesDead places c
ForcesDead-plain places (forcing q) n = absurd n
ForcesDead-plain places _ n = tt

pub ForcesDead-Owns : (places : ℕ → Place) (c : Place) → Owns c → ForcesDead places c
ForcesDead-Owns places (forcing q) o = absurd o
ForcesDead-Owns places _ o = tt

-- A process forces no lock but another's.
abbrev pub SparesLock : (r : ℕ) → Place → Type 0
SparesLock r (forcing q) = r ≢ q
SparesLock r _ = Unit {0}

clear_other :
    (mtx : Mutex) (p : ℕ) (w : Words) (r : ℕ) → r ≢ p → w.lock ≡ r → (clear mtx p w).0.lock ≡ r
clear_other mtx p w r ne e = let other : (w.lock == p) ≡ false = ground arith in rw other e

module _ (ncpu : ℕ) (mtx : Mutex) (p : ℕ) (w : Words) where
  -- A step of another process leaves the word alone that names `r`.
  pub run-other :
      (c : Place) (r : ℕ)
      → r ≢ p
      → r ≢ 0
      → SparesLock r c
      → w.lock ≡ r
      → (run ncpu mtx p w c).0.lock ≡ r
  unfolding run
  run-other outside r ne pos sp e = e
  run-other holding r ne pos sp e = e
  run-other dead r ne pos sp e = e
  run-other (testing a) r ne pos sp e = e
  run-other (swapping a) r ne pos sp e =
      let taken : (w.lock == 0) ≡ false = ground arith in rw taken e
  run-other counting r ne pos sp e = e
  run-other discounting r ne pos sp e = e
  run-other waiting r ne pos sp e = elim (Bool-cases (w.sem == 0)) [
    | inl z ↦ rw z e
    | inr z ↦ rw z e
  ]
  run-other clearing r ne pos sp e = clear_other mtx p w r ne e
  run-other (forcing q) r ne pos sp e = clear_other mtx q w r sp e
  run-other reading r ne pos sp e = e
  run-other (waking v) r ne pos sp e = elim (Bool-cases (w.wait == v)) [
    | inl z ↦ rw z e
    | inr z ↦ rw z e
  ]
  run-other posting r ne pos sp e = e

  -- What a step makes of a process: an owner that the word names, or nothing that matters.
  abbrev pub Settled : Words × Place → Type 0
  Settled (w', c) = ((w'.lock ≡ p) × Owns c) ⊎ IsPlain c

  succeeded-Settled : (a : Attempt) → Settled (record w { lock = p }, succeeded a)
  succeeded-Settled trying = inl (refl, tt)
  succeeded-Settled first = inl (refl, tt)
  succeeded-Settled (spinning n) = inl (refl, tt)
  succeeded-Settled counted = inl (refl, tt)

  pub run-Settled : (c : Place) → (Owns c → w.lock ≡ p) → Settled (run ncpu mtx p w c)
  unfolding run
  run-Settled outside o = inr tt
  run-Settled holding o = inl (o tt, tt)
  run-Settled dead o = inr tt
  run-Settled (testing a) o = inr (if_elim IsPlain (w.lock == 0) tt (failed-IsPlain mtx ncpu a))
  run-Settled (swapping a) o = elim (Bool-cases (w.lock == 0)) [
    | inl free ↦ rw free (succeeded-Settled a)
    | inr taken ↦ rw taken (inr (failed-IsPlain mtx ncpu a))
  ]
  run-Settled counting o = inr tt
  run-Settled discounting o = inr tt
  run-Settled waiting o = elim (Bool-cases (w.sem == 0)) [
    | inl z ↦ rw z (inr tt)
    | inr z ↦ rw z (inr tt)
  ]
  run-Settled clearing o = inr (clear-IsPlain mtx p w)
  run-Settled (forcing q) o = inr (clear-IsPlain mtx q w)
  run-Settled reading o = inr (if_elim IsPlain (w.wait == 0 || leb (2 ^ 63) w.wait) tt tt)
  run-Settled (waking v) o = elim (Bool-cases (w.wait == v)) [
    | inl z ↦ rw z (inr tt)
    | inr z ↦ rw z (inr tt)
  ]
  run-Settled posting o = inr tt

  pub run-IsDead : (c : Place) → IsDead c → IsDead (run ncpu mtx p w c).1
  unfolding run
  run-IsDead dead d = tt
  run-IsDead _ d = absurd d
