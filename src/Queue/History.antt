-- ===== src/Queue/History.antt =====
-- src/core/ngx_queue.h: operations on one queue, in any order, beside those on a list.
use nginx_inside_out.Prelude.{
  ℕ, ◌≡◌, refl, sym, ap, subst, inl, inr, Bool, true, false, ◌||◌, List, [], ◌∷◌, ◌++◌, Option,
  none, some, arith, ◌==◌, if◌then◌else◌, Bool-cases,
}
use nginx_inside_out.Queue.{Links, queue_init, queue_insert_head, queue_insert_tail, queue_remove}
use nginx_inside_out.Queue.Ring.{NotIn, IsQueue}
use nginx_inside_out.Queue.Refine.{
  queue_init-IsQueue, queue_insert_head-cons, queue_insert_tail-snoc, queue_remove-append,
}

pub data Operation : Type 0 where
  insert_head : (x : ℕ) → Operation
  insert_tail : (x : ℕ) → Operation
  remove : (x : ℕ) → Operation

-- the links after the operations, one after the other, on the queue with head `h`
abbrev pub apply : (h : ℕ) → Operation → Links → Links
apply h (insert_head x) s = queue_insert_head h x s
apply h (insert_tail x) s = queue_insert_tail h x s
apply h (remove x) s = queue_remove x s

unfoldable pub apply_all : (h : ℕ) → List Operation → Links → Links
apply_all h [] s = s
apply_all h (op ∷ ops) s = apply_all h ops (apply h op s)

-- What the operations mean on a list: `none` where an element is put in that is the head or there
-- already, or one is taken out that is not there.
abbrev pub mem : ℕ → List ℕ → Bool
mem x [] = false
mem x (y ∷ ys) = x == y || mem x ys

abbrev pub without : ℕ → List ℕ → List ℕ
without x [] = []
without x (y ∷ ys) = if x == y then ys else y ∷ without x ys

abbrev pub apply_list : (h : ℕ) → Operation → List ℕ → Option (List ℕ)
apply_list h (insert_head x) xs = if x == h || mem x xs then none else some (x ∷ xs)
apply_list h (insert_tail x) xs = if x == h || mem x xs then none else some (xs ++ x ∷ [])
apply_list h (remove x) xs = if mem x xs then some (without x xs) else none

unfoldable pub apply_list_all : (h : ℕ) → List Operation → List ℕ → Option (List ℕ)
apply_list_all h [] xs = some xs
apply_list_all h (op ∷ ops) xs = elim (apply_list h op xs) [
  | none ↦ none
  | some ys ↦ apply_list_all h ops ys
]

mem-NotIn : (x : ℕ) (xs : List ℕ) → mem x xs ≡ false → NotIn x xs
mem-NotIn x [] e = tt
mem-NotIn x (y ∷ ys) e = (ground arith, mem-NotIn x ys (ground arith))

-- Where an element is, it stands between a front and a back.
record IsSplit (x : ℕ) (xs front back : List ℕ) : Type 0 where
  whole : xs ≡ front ++ x ∷ back
  rest : without x xs ≡ front ++ back

mem-IsSplit :
    (x : ℕ) (xs : List ℕ)
    → mem x xs ≡ true
    → (front : List ℕ) × (back : List ℕ) × IsSplit x xs front back
mem-IsSplit x [] e = absurd (ground arith)
mem-IsSplit x (y ∷ ys) e = elim (Bool-cases (x == y)) [
  | inl here ↦
      let same : x ≡ y = ground arith in
      ([], ys, record { whole = ap (λ z. z ∷ ys) (sym same); rest = rw here refl })
  | inr other ↦
      let (front, back, split) = mem-IsSplit x ys (ground arith) in
      (
        y ∷ front,
        back,
        record { whole = ap (λ zs. y ∷ zs) split.whole; rest = rw (other, split.rest) refl },
      )
]

-- What one operation leaves, where the list takes it.
abbrev Follows : Links → (h : ℕ) → Option (List ℕ) → Type 0
Follows s h none = Unit {0}
Follows s h (some ys) = IsQueue s h ys

apply-Follows :
    (h : ℕ) (op : Operation) (s : Links) (xs : List ℕ)
    → IsQueue s h xs
    → Follows (apply h op s) h (apply_list h op xs)
apply-Follows h (insert_head x) s xs q = elim (Bool-cases (x == h || mem x xs)) [
  | inl bad ↦ rw bad tt
  | inr good ↦
      rw good (queue_insert_head-cons s h x xs q (ground arith) (mem-NotIn x xs (ground arith)))
]
apply-Follows h (insert_tail x) s xs q = elim (Bool-cases (x == h || mem x xs)) [
  | inl bad ↦ rw bad tt
  | inr good ↦
      rw good (queue_insert_tail-snoc s h x xs q (ground arith) (mem-NotIn x xs (ground arith)))
]
apply-Follows h (remove x) s xs q = elim (Bool-cases (mem x xs)) [
  | inl there ↦
      let (front, back, split) = mem-IsSplit x xs there in
      rw (there, split.rest)
        (queue_remove-append s h x front back (subst (IsQueue s h) split.whole q))
  | inr absent ↦ rw absent tt
]

apply_all-Follows :
    (h : ℕ) (ops : List Operation) (s : Links) (xs : List ℕ)
    → IsQueue s h xs
    → Follows (apply_all h ops s) h (apply_list_all h ops xs)
unfolding apply_all apply_list_all
apply_all-Follows h [] s xs q = q
apply_all-Follows h (op ∷ ops) s xs q =
    then_rest (apply_list h op xs) (apply-Follows h op s xs q)
      (λ ys k. apply_all-Follows h ops (apply h op s) ys k)
  where
    then_rest :
        (r : Option (List ℕ))
        → Follows (apply h op s) h r
        → ((ys : List ℕ)
            → IsQueue (apply h op s) h ys
            → Follows (apply_all h ops (apply h op s)) h (apply_list_all h ops ys))
        → Follows
            (apply_all h ops (apply h op s))
            h
            (elim r [ none ↦ none | some ys ↦ apply_list_all h ops ys ])
    then_rest none f next = tt
    then_rest (some ys) f next = next ys f

-- From an initialised head on, whatever the links were before: after any sequence of
-- `ngx_queue_insert_head`, `ngx_queue_insert_tail` and `ngx_queue_remove` that puts in no element that is
-- the head or in the queue already, and takes out only elements that are in it, the links are those
-- of a well-formed queue that holds what the same operations on a list leave, in that order.
pub apply_all-IsQueue :
    (h : ℕ) (ops : List Operation) (s : Links) (ys : List ℕ)
    → apply_list_all h ops [] ≡ some ys
    → IsQueue (apply_all h ops (queue_init h s)) h ys
apply_all-IsQueue h ops s ys e =
    subst (Follows (apply_all h ops (queue_init h s)) h) e
      (apply_all-Follows h ops (queue_init h s) [] (queue_init-IsQueue h s))
