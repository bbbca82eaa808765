-- ===== src/Shmtx/Trap.antt =====
-- src/core/ngx_shmtx.c:157-179: behind a ngx_atomic_cmp_set that succeeds, ngx_shmtx_lock does not
-- return but waits and tries again.
use nginx_inside_out.Prelude.{
  ℕ, ◌*◌, ◌%◌, ◌^◌, ◌≡◌, ◌≢◌, ◌⊎◌, inl, inr, sym, subst, false, arith, ltb, ◌==◌, Bool-cases,
  if_elim,
}
use nginx_inside_out.Shmtx.{
  Mutex, Words, Attempt, trying, first, spinning, counted, Place, dead, testing, swapping, counting,
  discounting, waiting, forcing, failed, after_spin, spin_from, run,
}
use nginx_inside_out.Shmtx.Steps.{
  System, start_system, IsDead, Call, trylock, lock, unlock, stray_unlock, force_unlock, moved,
  Step, runs, calls, wait_fails, dies, Steps, none_more, one_more,
}
use nginx_inside_out.Shmtx.Places.{Owns, ForcesDead, SparesLock, run-other, run-IsDead}
use nginx_inside_out.Shmtx.Exclusion.{
  IsExclusive, assign-cases, Steps-IsExclusive, start-IsExclusive,
}

-- The places of the loop of ngx_shmtx_lock.
abbrev pub InLoop : Place → Type 0
InLoop (testing trying) = ⊥
InLoop (testing _) = Unit {0}
InLoop (swapping trying) = ⊥
InLoop (swapping _) = Unit {0}
InLoop counting = Unit {0}
InLoop discounting = Unit {0}
InLoop waiting = Unit {0}
InLoop _ = ⊥

-- The lock word names `p`, which is in the loop, or has died.
abbrev pub Trapped : (p : ℕ) → System → Type 0
Trapped p s = ((s.words.lock ≡ p) × InLoop (s.places p)) ⊎ IsDead (s.places p)

module _ (mtx : Mutex) where
  after_spin-InLoop : InLoop (after_spin mtx)
  after_spin-InLoop = if_elim InLoop mtx.semaphore tt tt

  spin_from-InLoop : (n : ℕ) → InLoop (spin_from mtx n)
  spin_from-InLoop n = if_elim InLoop (ltb n mtx.spin) tt after_spin-InLoop

  failed-InLoop : (ncpu : ℕ) (a : Attempt) → InLoop (testing a) → InLoop (failed ncpu mtx a)
  unfolding failed
  failed-InLoop ncpu trying i = absurd i
  failed-InLoop ncpu first i = if_elim InLoop (ltb 1 ncpu) (spin_from-InLoop 1) after_spin-InLoop
  failed-InLoop ncpu (spinning n) i = spin_from-InLoop (n * 2 % 2 ^ 64)
  failed-InLoop ncpu counted i = tt

  -- A step of a process in the loop whose pid the word has: it stays in the loop, and so does the word.
  run-InLoop :
      (ncpu p : ℕ) (w : Words) (c : Place)
      → p ≢ 0
      → w.lock ≡ p
      → InLoop c
      → let r = run ncpu mtx p w c in (r.0.lock ≡ p) × InLoop r.1
  unfolding run
  run-InLoop ncpu p w (testing a) pos e i =
      let taken : (w.lock == 0) ≡ false = ground arith in rw taken (e, failed-InLoop ncpu a i)
  run-InLoop ncpu p w (swapping trying) pos e i = absurd i
  run-InLoop ncpu p w (swapping first) pos e i =
      let taken : (w.lock == 0) ≡ false = ground arith in rw taken (e, failed-InLoop ncpu first tt)
  run-InLoop ncpu p w (swapping (spinning n)) pos e i =
      let taken : (w.lock == 0) ≡ false = ground arith in
      rw taken (e, failed-InLoop ncpu (spinning n) tt)
  run-InLoop ncpu p w (swapping counted) pos e i =
      let taken : (w.lock == 0) ≡ false = ground arith in
      rw taken (e, failed-InLoop ncpu counted tt)
  run-InLoop ncpu p w counting pos e i = (e, tt)
  run-InLoop ncpu p w discounting pos e i = (e, tt)
  run-InLoop ncpu p w waiting pos e i = elim (Bool-cases (w.sem == 0)) [
    | inl z ↦ rw z (e, tt)
    | inr z ↦ rw z (e, tt)
  ]
  run-InLoop ncpu p w _ pos e i = absurd i

no_call : {places : ℕ → Place} (b c : Place) → Call places b c → InLoop b ⊎ IsDead b → ⊥
no_call b c trylock i = elim i [ inl x ↦ x | inr x ↦ x ]
no_call b c lock i = elim i [ inl x ↦ x | inr x ↦ x ]
no_call b c unlock i = elim i [ inl x ↦ x | inr x ↦ x ]
no_call b c stray_unlock i = elim i [ inl x ↦ x | inr x ↦ x ]
no_call b c (force_unlock q d) i = elim i [ inl x ↦ x | inr x ↦ x ]

InLoop-dead : (c : Place) → InLoop c → IsDead c → ⊥
InLoop-dead dead i d = i
InLoop-dead _ i d = d

module _ (ncpu : ℕ) (mtx : Mutex) (p : ℕ) (pos : p ≢ 0) (s : System) (v : IsExclusive s) where
  abbrev Caught : Words → Place → Type 0
  Caught w c = ((w.lock ≡ p) × InLoop c) ⊎ IsDead c

  spared : (q : ℕ) → InLoop (s.places p) → SparesLock p (s.places q)
  spared q i = go (s.places q) (v.forced q)
    where
      go : (c : Place) → ForcesDead s.places c → SparesLock p c
      go (forcing r) d = λ e. InLoop-dead (s.places r) (subst (λ k. InLoop (s.places k)) e i) d
      go _ d = tt

  own_step : Trapped p s → let r = run ncpu mtx p s.words (s.places p) in Caught r.0 r.1
  own_step (inl (e, i)) = inl (run-InLoop mtx ncpu p s.words (s.places p) pos e i)
  own_step (inr d) = inr (run-IsDead ncpu mtx p s.words (s.places p) d)

  other_step :
      (q : ℕ) → p ≢ q → Trapped p s → Caught (run ncpu mtx q s.words (s.places q)).0 (s.places p)
  other_step q ne (inl (e, i)) =
      inl (run-other ncpu mtx q s.words (s.places q) p ne pos (spared q i) e, i)
  other_step q ne (inr d) = inr d

  -- Where another process only changes its place, or `p` goes on in the loop or dies.
  goes :
      (q : ℕ) (c : Place)
      → Trapped p s
      → (p ≡ q → Caught s.words c)
      → Trapped p (moved s q (s.words, c))
  goes q c h own = assign-cases (Caught s.words) s.places q c p own (λ ne. h)

  Step-Trapped : (t : System) → Trapped p s → Step ncpu mtx s t → Trapped p t
  Step-Trapped t h (runs q pos_q) =
      let r = run ncpu mtx q s.words (s.places q) in
      assign-cases (Caught r.0) s.places q r.1 p
        (λ e.
          subst
            (λ k.
              Caught (run ncpu mtx k s.words (s.places k)).0
                (run ncpu mtx k s.words (s.places k)).1)
            e (own_step h))
        (λ ne. other_step q ne h)
  Step-Trapped t h (calls q {place} call) = goes q place h (λ e. absurd (
      no_call (s.places q) place call
        (subst (λ k. InLoop (s.places k) ⊎ IsDead (s.places k)) e (forget h))))
    where
      forget : Trapped p s → InLoop (s.places p) ⊎ IsDead (s.places p)
      forget (inl (e, i)) = inl i
      forget (inr d) = inr d
  Step-Trapped t h (wait_fails q e) = goes q (testing first) h (λ same. elim h [
    | inl (l, i) ↦ inl (l, tt)
    | inr d ↦ absurd (subst IsDead e (subst (λ k. IsDead (s.places k)) same d))
  ])
  Step-Trapped t h (dies q) = goes q dead h (λ e. inr tt)

-- Where only the lock of a dead process is forced, a process that gets the lock behind the counting
-- of waiters, at line 157, never returns from `ngx_shmtx_lock`: whatever steps follow, it is in the
-- loop and the lock word is its pid, unless it has died.
pub counted-Trapped :
    (ncpu : ℕ) (mtx : Mutex) (s t : System) (p : ℕ)
    → Steps ncpu mtx start_system s
    → s.places p ≡ discounting
    → Steps ncpu mtx s t
    → Trapped p t
counted-Trapped ncpu mtx s t p before place after = go t after
  where
    exclusive : IsExclusive s
    exclusive = Steps-IsExclusive ncpu mtx start_system s start-IsExclusive before

    owns : (s.words.lock ≡ p) × (p ≢ 0)
    owns = exclusive.owner p (subst Owns (sym place) tt)

    go : (u : System) → Steps ncpu mtx s u → Trapped p u
    go u none_more = inl (owns.0, subst InLoop (sym place) tt)
    go u (one_more {t = m} path step) =
        Step-Trapped ncpu mtx p owns.1 m (Steps-IsExclusive ncpu mtx s m exclusive path) u
          (go m path) step
