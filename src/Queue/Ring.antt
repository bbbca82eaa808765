-- ===== src/Queue/Ring.antt =====
-- src/core/ngx_queue.h: what a ring of elements is, and what a change elsewhere leaves of it.
use nginx_inside_out.Prelude.{ℕ, ◌≡◌, ◌≢◌, ◌⊎◌, inl, inr, refl, List, [], ◌∷◌, arith}
use nginx_inside_out.Queue.{Links}

-- `x` is none of the elements.
abbrev pub NotIn : ℕ → List ℕ → Type 0
NotIn x [] = Unit {0}
NotIn x (y ∷ ys) = (x ≢ y) × NotIn x ys

abbrev pub In : ℕ → List ℕ → Type 0
In x [] = ⊥
In x (y ∷ ys) = (x ≡ y) ⊎ In x ys

pub ne_of_In : (z x : ℕ) (xs : List ℕ) → NotIn z xs → In x xs → z ≢ x
ne_of_In z x (y ∷ ys) (ne, h) (inl e) = ground arith
ne_of_In z x (y ∷ ys) (ne, h) (inr i) = ne_of_In z x ys h i
ne_of_In z x [] h i = absurd i

abbrev pub AllDistinct : List ℕ → Type 0
AllDistinct [] = Unit {0}
AllDistinct (x ∷ xs) = NotIn x xs × AllDistinct xs

-- From `a` the links lead through `xs` to `b`, and back.
abbrev pub Chain : Links → ℕ → List ℕ → ℕ → Type 0
Chain s a [] b = (s.next a ≡ b) × (s.prev b ≡ a)
Chain s a (x ∷ xs) b = (s.next a ≡ x) × (s.prev x ≡ a) × Chain s x xs b

-- The queue with head `h` holds `xs`, first to last.
pub record IsQueue (s : Links) (h : ℕ) (xs : List ℕ) : Type 0 where
  pub chain : Chain s h xs h
  pub apart : NotIn h xs
  pub distinct : AllDistinct xs

-- A chain survives a change of links that are not its own.
pub Chain-frame :
    (s t : Links) (a b : ℕ) (xs : List ℕ)
    → t.next a ≡ s.next a
    → t.prev b ≡ s.prev b
    → ((x : ℕ) → In x xs → (t.next x ≡ s.next x) × (t.prev x ≡ s.prev x))
    → Chain s a xs b
    → Chain t a xs b
Chain-frame s t a b [] n p same c = ground arith
Chain-frame s t a b (x ∷ xs) n p same (u, v, c) =
    let own = same x (inl refl) in
    (ground arith, ground (arith, own), Chain-frame s t x b xs own.0 p (λ y i. same y (inr i)) c)

-- The last element of a chain, which `prev` of its end shows, is one of its elements.
pub last-in :
    (s : Links) (a b z : ℕ) (xs : List ℕ) → Chain s a xs b → NotIn z xs → z ≢ a → z ≢ s.prev b
last-in s a b z [] (n, p) h ne = ground arith
last-in s a b z (x ∷ xs) (n, p, c) (ne', h) ne = last-in s x b z xs c h ne'

-- So is the first, unless the chain has none.
pub first-in :
    (s : Links) (a b z : ℕ) (xs : List ℕ) → Chain s a xs b → NotIn z xs → z ≢ b → z ≢ s.next a
first-in s a b z [] (n, p) h ne = ground arith
first-in s a b z (x ∷ xs) (n, p, c) (ne', h) ne = ground arith
