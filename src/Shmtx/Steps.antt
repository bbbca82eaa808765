-- ===== src/Shmtx/Steps.antt =====
-- src/core/ngx_shmtx.c: the processes together, in any order of their steps.
use nginx_inside_out.Prelude.{ℕ, ◌≡◌, ◌≢◌, ◌==◌, if◌then◌else◌}
use nginx_inside_out.Shmtx.{
  Mutex, Words, trying, first, Place, outside, holding, dead, testing, clearing, forcing, waiting,
  run,
}

pub record System : Type 0 where
  pub words : Words
  pub places : ℕ → Place

abbrev pub assign : (ℕ → Place) → ℕ → Place → ℕ → Place
assign f p v q = if q == p then v else f q

abbrev pub start_system : System
start_system = record { words = record { lock = 0; wait = 0; sem = 0 }; places = λ p. outside }

abbrev pub IsDead : Place → Type 0
IsDead dead = Unit {0}
IsDead _ = ⊥

-- The calls that a process may make: ngx_shmtx_force_unlock only for one that has died.
pub data Call (places : ℕ → Place) : Place → Place → Type 0 where
  trylock : Call places outside (testing trying)
  lock : Call places outside (testing first)
  unlock : Call places holding clearing
  stray_unlock : Call places outside clearing
  force_unlock : (q : ℕ) → IsDead (places q) → Call places outside (forcing q)

abbrev pub moved : System → (p : ℕ) → Words × Place → System
moved s p (w, place) = record { words = w; places = assign s.places p place }

-- One step: of the code, a call, a sem_wait that fails, or the death of a process. A pid is not 0.
pub data Step (ncpu : ℕ) (mtx : Mutex) (s : System) : System → Type 0 where
  runs : (p : ℕ) → p ≢ 0 → Step ncpu mtx s (moved s p (run ncpu mtx p s.words (s.places p)))
  calls :
      (p : ℕ) {place : Place}
      → Call s.places (s.places p) place
      → Step ncpu mtx s (moved s p (s.words, place))
  wait_fails : (p : ℕ) → s.places p ≡ waiting → Step ncpu mtx s (moved s p (s.words, testing first))
  dies : (p : ℕ) → Step ncpu mtx s (moved s p (s.words, dead))

-- Any number of steps.
pub data Steps (ncpu : ℕ) (mtx : Mutex) (s : System) : System → Type 0 where
  none_more : Steps ncpu mtx s s
  one_more : {t u : System} → Steps ncpu mtx s t → Step ncpu mtx t u → Steps ncpu mtx s u
