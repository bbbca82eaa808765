-- ===== src/Shmtx/Exclusion.antt =====
-- src/core/ngx_shmtx.c: who may hold the lock.
use nginx_inside_out.Prelude.{ℕ, ◌≡◌, ◌≢◌, inl, inr, refl, sym, ◌∙◌, subst, arith, ◌==◌, Bool-cases}
use nginx_inside_out.Shmtx.{Mutex, Words, first, Place, holding, dead, testing, forcing, run}
use nginx_inside_out.Shmtx.Steps.{
  System, assign, start_system, IsDead, Call, trylock, lock, unlock, stray_unlock, force_unlock,
  moved, Step, runs, calls, wait_fails, dies, Steps, none_more, one_more,
}
use nginx_inside_out.Shmtx.Places.{
  Owns, ForcesDead, Owns-dead, Owns-plain, ForcesDead-plain, ForcesDead-Owns, SparesLock, run-other,
  Settled, run-Settled, run-IsDead,
}

-- A process that has the lock is the one that the word names.
pub record IsExclusive (s : System) : Type 0 where
  pub owner : (p : ℕ) → Owns (s.places p) → (s.words.lock ≡ p) × (p ≢ 0)
  pub forced : (p : ℕ) → ForcesDead s.places (s.places p)

ForcesDead-mono :
    (f g : ℕ → Place) (c : Place)
    → ((x : ℕ) → IsDead (f x) → IsDead (g x))
    → ForcesDead f c
    → ForcesDead g c
ForcesDead-mono f g (forcing q) h d = h q d
ForcesDead-mono f g _ h d = tt

pub assign-cases :
    (P : Place → Type 0) (f : ℕ → Place) (p : ℕ) (c : Place) (q : ℕ)
    → (q ≡ p → P c)
    → (q ≢ p → P (f q))
    → P (assign f p c q)
assign-cases P f p c q h k = elim (Bool-cases (q == p)) [
  | inl e ↦ rw e (h (ground arith))
  | inr e ↦ rw e (k (ground arith))
]

-- One process gets to another place, and the word changes.
moved-IsExclusive :
    (s : System) (p : ℕ) (w : Words) (c : Place)
    → IsExclusive s
    → (Owns c → (w.lock ≡ p) × (p ≢ 0))
    → ForcesDead s.places c
    → ((r : ℕ) → r ≢ p → Owns (s.places r) → w.lock ≡ r)
    → (IsDead (s.places p) → IsDead c)
    → IsExclusive (moved s p (w, c))
moved-IsExclusive s p w c v own fd others kept = record {
  owner = λ q.
      assign-cases (λ d. Owns d → (w.lock ≡ q) × (q ≢ 0)) s.places p c q
        (λ e o. ((own o).0 ∙ sym e, λ z. (own o).1 (sym e ∙ z)))
        (λ ne o. (others q ne o, (v.owner q o).1));
  forced = λ q.
      assign-cases (ForcesDead (assign s.places p c)) s.places p c q
        (λ e. ForcesDead-mono s.places (assign s.places p c) c still fd)
        (λ ne. ForcesDead-mono s.places (assign s.places p c) (s.places q) still (v.forced q));
}
  where
    still : (x : ℕ) → IsDead (s.places x) → IsDead (assign s.places p c x)
    still x d =
        assign-cases IsDead s.places p c x (λ e. kept (subst (λ k. IsDead (s.places k)) e d))
          (λ ne. d)

module _ (ncpu : ℕ) (mtx : Mutex) (s : System) (v : IsExclusive s) where
  pub spares : (p r : ℕ) → Owns (s.places r) → SparesLock r (s.places p)
  spares p r o = go (s.places p) (v.forced p)
    where
      go : (c : Place) → ForcesDead s.places c → SparesLock r c
      go (forcing q) d = λ e. Owns-dead (s.places q) (subst (λ k. Owns (s.places k)) e o) d
      go _ d = tt

  runs-IsExclusive : (p : ℕ) → p ≢ 0 → IsExclusive (moved s p (run ncpu mtx p s.words (s.places p)))
  runs-IsExclusive p pos =
      let r = run ncpu mtx p s.words (s.places p) in
      moved-IsExclusive s p r.0 r.1 v (λ o. (own o, pos)) forces others
        (run-IsDead ncpu mtx p s.words (s.places p))
    where
      others :
          (q : ℕ) → q ≢ p → Owns (s.places q) → (run ncpu mtx p s.words (s.places p)).0.lock ≡ q
      others q ne o =
          run-other ncpu mtx p s.words (s.places p) q ne (v.owner q o).1 (spares p q o)
            (v.owner q o).0

      settled : Settled ncpu mtx p s.words (run ncpu mtx p s.words (s.places p))
      settled = run-Settled ncpu mtx p s.words (s.places p) (λ o. (v.owner p o).0)

      own :
          Owns (run ncpu mtx p s.words (s.places p)).1
          → (run ncpu mtx p s.words (s.places p)).0.lock ≡ p
      own o = elim settled [
        | inl (e, _) ↦ e
        | inr n ↦ absurd (Owns-plain (run ncpu mtx p s.words (s.places p)).1 n o)
      ]

      forces : ForcesDead s.places (run ncpu mtx p s.words (s.places p)).1
      forces = elim settled [
        | inl (_, o) ↦ ForcesDead-Owns s.places (run ncpu mtx p s.words (s.places p)).1 o
        | inr n ↦ ForcesDead-plain s.places (run ncpu mtx p s.words (s.places p)).1 n
      ]

  -- A process that gets to a place where it owns nothing.
  left-IsExclusive :
      (p : ℕ) (c : Place)
      → (Owns c → ⊥)
      → ForcesDead s.places c
      → (IsDead (s.places p) → IsDead c)
      → IsExclusive (moved s p (s.words, c))
  left-IsExclusive p c owns_not fd kept =
      moved-IsExclusive s p s.words c v (λ o. absurd (owns_not o)) fd (λ r ne o. (v.owner r o).0)
        kept

  calls-IsExclusive :
      (p : ℕ) (b c : Place)
      → Call s.places b c
      → b ≡ s.places p
      → IsExclusive (moved s p (s.words, c))
  calls-IsExclusive p b c call e =
      left-IsExclusive p c (owns_not b c call) (fd b c call)
        (λ d. absurd (alive b c call (subst IsDead (sym e) d)))
    where
      owns_not : (b c : Place) → Call s.places b c → Owns c → ⊥
      owns_not b c trylock o = o
      owns_not b c lock o = o
      owns_not b c unlock o = o
      owns_not b c stray_unlock o = o
      owns_not b c (force_unlock q d) o = o

      fd : (b c : Place) → Call s.places b c → ForcesDead s.places c
      fd b c trylock = tt
      fd b c lock = tt
      fd b c unlock = tt
      fd b c stray_unlock = tt
      fd b c (force_unlock q d) = d

      alive : (b c : Place) → Call s.places b c → IsDead b → ⊥
      alive b c trylock d = d
      alive b c lock d = d
      alive b c unlock d = d
      alive b c stray_unlock d = d
      alive b c (force_unlock q x) d = d

-- Every step keeps the invariant.
pub Step-IsExclusive :
    (ncpu : ℕ) (mtx : Mutex) (s t : System) → IsExclusive s → Step ncpu mtx s t → IsExclusive t
Step-IsExclusive ncpu mtx s t v (runs p pos) = runs-IsExclusive ncpu mtx s v p pos
Step-IsExclusive ncpu mtx s t v (calls p {place} call) =
    calls-IsExclusive ncpu mtx s v p (s.places p) place call refl
Step-IsExclusive ncpu mtx s t v (wait_fails p e) =
    left-IsExclusive ncpu mtx s v p (testing first) (λ o. o) tt (λ d. subst IsDead e d)
Step-IsExclusive ncpu mtx s t v (dies p) =
    left-IsExclusive ncpu mtx s v p dead (λ o. o) tt (λ d. tt)

pub start-IsExclusive : IsExclusive start_system
start-IsExclusive = record { owner = λ p o. absurd o; forced = λ p. tt }

pub Steps-IsExclusive :
    (ncpu : ℕ) (mtx : Mutex) (s t : System) → IsExclusive s → Steps ncpu mtx s t → IsExclusive t
Steps-IsExclusive ncpu mtx s t v none_more = v
Steps-IsExclusive ncpu mtx s u v (one_more {t} before step) =
    Step-IsExclusive ncpu mtx t u (Steps-IsExclusive ncpu mtx s t v before) step

-- In every state that processes whose pids are not 0 get to from the start, in any order of their
-- steps, where only the lock of a dead process is forced, at most one process holds the lock, and
-- the lock word is its pid.
pub at_most_one :
    (ncpu : ℕ) (mtx : Mutex) (s : System) (p q : ℕ)
    → Steps ncpu mtx start_system s
    → s.places p ≡ holding
    → s.places q ≡ holding
    → (p ≡ q) × (s.words.lock ≡ p)
at_most_one ncpu mtx s p q path hp hq =
    let v = Steps-IsExclusive ncpu mtx start_system s start-IsExclusive path in
    let a = (v.owner p (subst Owns (sym hp) tt)).0 in
    let b = (v.owner q (subst Owns (sym hq) tt)).0 in (sym a ∙ b, a)
