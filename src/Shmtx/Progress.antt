-- ===== src/Shmtx/Progress.antt =====
-- src/core/ngx_shmtx.c: a process that goes on alone stops spinning where the lock is taken, and
-- lets a waiter on when it gives the lock back.
use nginx_inside_out.Prelude.{
  zero, suc, inl, inr, Bool, Bool-cases, ltb, if◌then◌else◌, ◌≤◌, ◌*◌, ◌%◌, ℕ, ◌+◌, ◌-◌, ◌^◌, ◌<◌,
  ◌≡◌, ◌≢◌, refl, ap, sym, subst, ◌∙◌, true, false, ◌||◌, arith, leb, ◌==◌,
}
use nginx_inside_out.Shmtx.{
  Mutex, Words, first, Place, outside, holding, testing, clearing, reading, waking, posting, run,
  failed, spinning, counted, counting, waiting, after_spin, spin_from,
}
use nginx_inside_out.Shmtx.Steps.{System, Call, lock, unlock, assign, moved}

-- What a process does by itself: one call, and the steps of its code that follow. No step of another
-- process, no death, no failing sem_wait and no second call is among them.
pub data OwnSteps (ncpu : ℕ) (mtx : Mutex) (p : ℕ) (s : System) : System → Type 0 where
  called :
      {place : Place}
      → Call s.places (s.places p) place
      → OwnSteps ncpu mtx p s (moved s p (s.words, place))
  runs_on :
      {t : System}
      → OwnSteps ncpu mtx p s t
      → OwnSteps ncpu mtx p s (moved t p (run ncpu mtx p t.words (t.places p)))

-- By one call and its own steps alone the process comes to this place, with these words; the others
-- stay where they are.
pub record Reached (ncpu : ℕ) (mtx : Mutex) (p : ℕ) (s : System) (w : Words) (c : Place)
    : Type 0 where
  pub end : System
  pub path : OwnSteps ncpu mtx p s end
  pub words : end.words ≡ w
  pub place : end.places p ≡ c
  pub others : (q : ℕ) → q ≢ p → end.places q ≡ s.places q

module _ (ncpu : ℕ) (mtx : Mutex) (p : ℕ) (pos : p ≢ 0) (s : System) where
  assign-own : (f : ℕ → Place) (c : Place) → assign f p c p ≡ c
  assign-own f c = let same : (p == p) ≡ true = ground arith in rw same refl

  assign-other : (f : ℕ → Place) (c : Place) (q : ℕ) → q ≢ p → assign f p c q ≡ f q
  assign-other f c q ne = let other : (q == p) ≡ false = ground arith in rw other refl

  advance :
      (w w' : Words) (c c' : Place)
      → Reached ncpu mtx p s w c
      → run ncpu mtx p w c ≡ (w', c')
      → Reached ncpu mtx p s w' c'
  advance w w' c c' r e =
      let t = r.end in
      let result : run ncpu mtx p t.words (t.places p) ≡ (w', c') =
        ap (λ v. run ncpu mtx p v (t.places p)) r.words ∙ ap (run ncpu mtx p w) r.place ∙ e in
      record {
        end = moved t p (run ncpu mtx p t.words (t.places p));
        path = runs_on r.path;
        words = ap (λ x. x.0) result;
        place = assign-own t.places _ ∙ ap (λ x. x.1) result;
        others = λ q ne. assign-other t.places _ q ne ∙ r.others q ne;
      }

  enter :
      (c c' : Place)
      → s.places p ≡ c
      → ((places : ℕ → Place) → Call places c c')
      → Reached ncpu mtx p s s.words c'
  enter c c' at call = record {
    end = moved s p (s.words, c');
    path = called (subst (λ k. Call s.places k c') (sym at) (call s.places));
    words = refl;
    place = assign-own s.places c';
    others = λ q ne. assign-other s.places c' q ne;
  }

  -- Where a process whose pid is not 0 has the lock and processes are counted as waiters, fewer than
  -- 2^63 of them, `ngx_shmtx_unlock` with a semaphore comes back after the steps of that call alone:
  -- the lock word is 0, one waiter less is counted, the semaphore lets one process more through, and
  -- the other processes are where they were.
  pub unlock-Reached :
      s.places p ≡ holding
      → s.words.lock ≡ p
      → mtx.semaphore ≡ true
      → 0 < s.words.wait
      → s.words.wait < 2 ^ 63
      → Reached ncpu mtx p s
          (record { lock = 0; wait = s.words.wait - 1; sem = s.words.sem + 1 })
          outside
  unfolding run
  unlock-Reached at own sem some_wait few =
      let w = s.words in
      let w1 = record w { lock = 0 } in
      let w2 = record w1 { wait = w.wait - 1 } in
      let mine : (w.lock == p) ≡ true = ground arith in
      let waiters : (w.wait == 0 || leb (2 ^ 63) w.wait) ≡ false = ground arith in
      let same : (w.wait == w.wait) ≡ true = ground arith in
      let cleared : run ncpu mtx p w clearing ≡ (w1, reading) = rw (mine, sem) refl in
      let read : run ncpu mtx p w1 reading ≡ (w1, waking w.wait) = rw waiters refl in
      let woken : run ncpu mtx p w1 (waking w.wait) ≡ (w2, posting) = rw same refl in
      advance w2 (record w2 { sem = w.sem + 1 }) posting outside
        (advance w1 w2 (waking w.wait) posting
          (advance w1 w1 reading (waking w.wait)
            (advance w w1 clearing reading (enter holding clearing at (λ places. unlock)) cleared)
            read)
          woken)
        refl

  module _ (sem : mtx.semaphore ≡ true) (taken : s.words.lock ≢ 0) where
    counted_words : Words
    counted_words = record (s.words) { wait = (s.words.wait + 1) % 2 ^ 64 }

    after_spin-Reached :
        Reached ncpu mtx p s s.words (after_spin mtx) → Reached ncpu mtx p s counted_words waiting
    unfolding run failed counted_words
    after_spin-Reached r =
        let busy : (s.words.lock == 0) ≡ false = ground arith in
        let at_counting : after_spin mtx ≡ counting = rw sem refl in
        advance counted_words counted_words (testing counted) waiting
          (advance s.words counted_words counting (testing counted)
            (subst (Reached ncpu mtx p s s.words) at_counting r) refl)
          (rw busy refl)

    NextRound : (n : ℕ) → Bool → Type 0
    NextRound n more =
        Reached ncpu mtx p s s.words (if more then testing (spinning n) else after_spin mtx)

    -- The number of pauses gets larger with every round, until it is not below `spin`.
    spin_from-Reached :
        mtx.spin ≤ 2 ^ 63
        → (rounds n : ℕ) → 0 < n
        → mtx.spin ≤ n + rounds
        → Reached ncpu mtx p s s.words (spin_from mtx n)
        → Reached ncpu mtx p s counted_words waiting
    unfolding run failed NextRound
    spin_from-Reached word zero n pos near r =
        let over : ltb n mtx.spin ≡ false = ground arith in
        after_spin-Reached (subst (NextRound n) over r)
    spin_from-Reached word (suc rounds) n pos near r = elim (Bool-cases (ltb n mtx.spin)) [
      | inr over ↦ after_spin-Reached (subst (NextRound n) over r)
      | inl below ↦
          let busy : (s.words.lock == 0) ≡ false = ground arith in
          let short : n < mtx.spin = ground arith in
          spin_from-Reached word rounds (n * 2 % 2 ^ 64) (omega arith) (omega arith) (
            advance s.words s.words (testing (spinning n)) (spin_from mtx (n * 2 % 2 ^ 64))
              (subst (NextRound n) below r) (rw busy refl))
    ]

    -- Where a process whose pid is not 0 is outside and the lock word is not 0, on a mutex with a semaphore
    -- whose `spin` is at most 2^63, whatever the number of CPUs: `ngx_shmtx_lock` comes to its sem_wait
    -- after the steps of that call alone, with one waiter more counted; the lock word and the semaphore
    -- are as before, and the other processes are where they were.
    pub lock-Reached :
        mtx.spin ≤ 2 ^ 63
        → s.places p ≡ outside
        → Reached ncpu mtx p s (record (s.words) { wait = (s.words.wait + 1) % 2 ^ 64 }) waiting
    unfolding run failed counted_words
    lock-Reached word at = elim (Bool-cases (ltb 1 ncpu)) [
      | inl many ↦ spin_from-Reached word mtx.spin 1 (omega arith) (omega arith) (
          advance s.words s.words (testing first) (spin_from mtx 1) called_lock
            (rw (busy, many) refl))
      | inr one ↦ after_spin-Reached (
          advance s.words s.words (testing first) (after_spin mtx) called_lock
            (rw (busy, one) refl))
    ]
      where
        busy : (s.words.lock == 0) ≡ false
        busy = ground arith

        called_lock : Reached ncpu mtx p s s.words (testing first)
        called_lock = enter outside (testing first) at (λ places. lock)
