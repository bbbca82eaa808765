-- ===== src/PartList/Iterate.antt =====
-- src/core/ngx_list.h, the iteration through a list that its comment gives, and what it visits.
use nginx_inside_out.Prelude.{
  ℕ, zero, suc, ◌+◌, ◌-◌, ◌<◌, ◌≡◌, ◌⊎◌, refl, ap, sym, ◌∙◌, true, false, List, [], ◌∷◌, ◌++◌,
  Option, none, some, leb, arith, length, length-append, append-nil, append_assoc,
}
use nginx_inside_out.Pool.State.{Pool, null}
use nginx_inside_out.Array.{mul_size}
use nginx_inside_out.PartList.{Part, Parts, Pushed}
use nginx_inside_out.PartList.Append.{slots_at, slots_of, slots, slots_of-snoc, AllFull, IsList}

abbrev visited : (elt : ℕ) → Option (List ℕ) → Option (List ℕ)
visited elt none = none
visited elt (some elts) = some (elt ∷ elts)

-- `for (i = 0 ;; i++) { if (i >= part->nelts) { … } ... data[i] ... }` in `part`, with the parts `next`
-- behind it: the addresses of the elements; `none` where the rounds are used up. A part that is
-- entered is not tested: its first element is visited at once.
unfoldable pub visit : (size rounds : ℕ) → Part → (next : List Part) → (i : ℕ) → Option (List ℕ)
visit size zero part next i = none
visit size (suc rounds) part next i = elim (leb part.nelts i) [
  | true ↦ elim next [
    | [] ↦ some []
    | ◌∷◌ q qs ↦ visited (q.elts + mul_size size 0) (visit size rounds q qs 1)
  ]
  | false ↦ visited (part.elts + mul_size size i) (visit size rounds part next (i + 1))
]

-- `part = &list.part;` and the loop
unfoldable pub iterate : (rounds : ℕ) → Parts → Option (List ℕ)
unfolding visit
iterate rounds l = elim l.front [
  | [] ↦ visit l.size rounds l.last [] 0
  | ◌∷◌ q qs ↦ visit l.size rounds q (qs ++ l.last ∷ []) 0
]

-- The addresses of `n` elements from the one with index `i` on.
abbrev slots_from : (elts size i n : ℕ) → List ℕ
slots_from elts size i zero = []
slots_from elts size i (suc n) = (elts + mul_size size i) ∷ slots_from elts size (i + 1) n

slots_from-snoc :
    (elts size i n : ℕ)
    → slots_from elts size i (suc n)
      ≡ slots_from elts size i n ++ (elts + mul_size size (i + n)) ∷ []
slots_from-snoc elts size i zero = let e : i + 0 ≡ i = omega arith in rw e refl
slots_from-snoc elts size i (suc n) =
    let e : i + 1 + n ≡ i + suc n = omega arith in
    ap (λ s. (elts + mul_size size i) ∷ s)
      (slots_from-snoc elts size (i + 1) n
        ∙ ap (λ j. slots_from elts size (i + 1) n ++ (elts + mul_size size j) ∷ []) e)

slots_from-slots_at : (elts size n : ℕ) → slots_from elts size 0 n ≡ slots_at elts size n
slots_from-slots_at elts size zero = refl
slots_from-slots_at elts size (suc n) =
    slots_from-snoc elts size 0 n
    ∙ (let e : 0 + n ≡ n = omega arith in rw (e, slots_from-slots_at elts size n) refl)

length-slots_at : (elts size n : ℕ) → length (slots_at elts size n) ≡ n
length-slots_at elts size zero = refl
length-slots_at elts size (suc n) = omega (
  arith,
  length-append (slots_at elts size n) ((elts + mul_size size n) ∷ []),
  length-slots_at elts size n,
)

abbrev AllBegun : List Part → Type 0
AllBegun [] = Unit {0}
AllBegun (q ∷ qs) = (0 < q.nelts) × AllBegun qs

-- What is left of a part, and the parts behind it.
visit-slots :
    (size rounds n i : ℕ) (part : Part) (next : List Part)
    → part.nelts ≡ i + n
    → AllBegun next
    → n + length (slots_of size next) < rounds
    → visit size rounds part next i ≡ some (slots_from part.elts size i n ++ slots_of size next)
unfolding visit
visit-slots size zero n i part next e b h = absurd (omega arith)
visit-slots size (suc rounds) zero i part [] e b h =
    let out : leb part.nelts i ≡ true = ground arith in rw (visit, out) refl
visit-slots size (suc rounds) zero i part (q ∷ qs) e (b, bs) h =
    let out : leb part.nelts i ≡ true = ground arith in
    let m = q.nelts - 1 in
    let more : q.nelts ≡ suc m = omega arith in
    let split : slots_at q.elts size q.nelts
        ≡ (q.elts + mul_size size 0) ∷ slots_from q.elts size 1 m =
      sym (slots_from-slots_at q.elts size q.nelts) ∙ ap (slots_from q.elts size 0) more in
    let short : m + length (slots_of size qs) < rounds = omega (
      arith,
      length-slots_at q.elts size q.nelts,
      length-append (slots_at q.elts size q.nelts) (slots_of size qs),
    ) in
    rw (visit, out, visit-slots size rounds m 1 q qs (omega arith) bs short)
      (ap (λ s. some (s ++ slots_of size qs)) (sym split))
visit-slots size (suc rounds) (suc n) i part next e b h =
    let inside : leb part.nelts i ≡ false = ground arith in
    rw (visit, inside, visit-slots size rounds n (i + 1) part next (omega arith) b (omega arith))
      refl

AllFull-AllBegun :
    (nalloc : ℕ) (qs : List Part) (last : Part)
    → AllFull nalloc qs
    → 0 < nalloc
    → 0 < last.nelts
    → AllBegun (qs ++ last ∷ [])
AllFull-AllBegun nalloc [] last full pos begun = (begun, tt)
AllFull-AllBegun nalloc (q ∷ qs) last (e, full) pos begun =
    (omega arith, AllFull-AllBegun nalloc qs last full pos begun)

-- The iteration of a well-formed list visits the elements of all parts.
pub iterate-slots :
    (l : Parts) (rounds : ℕ)
    → IsList l
    → length (slots l) < rounds
    → iterate rounds l ≡ some (slots l)
unfolding iterate
iterate-slots l rounds v enough = from_first l.front v.full v.begun enough
  where
    from_first :
        (front : List Part)
        → AllFull l.nalloc front
        → (front ≡ []) ⊎ (0 < l.last.nelts)
        → length (slots_of l.size front ++ slots_at l.last.elts l.size l.last.nelts) < rounds
        → (elim front [
          | [] ↦ visit l.size rounds l.last [] 0
          | ◌∷◌ q qs ↦ visit l.size rounds q (qs ++ l.last ∷ []) 0
        ])
          ≡ some (slots_of l.size front ++ slots_at l.last.elts l.size l.last.nelts)
    from_first [] full begun h =
        visit-slots l.size rounds l.last.nelts 0 l.last [] (omega arith) tt
          (omega (arith, length-slots_at l.last.elts l.size l.last.nelts))
        ∙ ap some (
            append-nil (slots_from l.last.elts l.size 0 l.last.nelts)
            ∙ slots_from-slots_at l.last.elts l.size l.last.nelts)
    from_first (q ∷ qs) full begun h =
        let holds : 0 < l.last.nelts = ground arith in
        let size = l.size in
        let here = slots_at q.elts size q.nelts in
        let after = slots_at l.last.elts size l.last.nelts in
        let chain : slots_of size (qs ++ l.last ∷ []) ≡ slots_of size qs ++ after =
          slots_of-snoc size qs l.last in
        let whole : here ++ slots_of size (qs ++ l.last ∷ [])
            ≡ (here ++ slots_of size qs) ++ after =
          ap (λ s. here ++ s) chain ∙ sym (append_assoc here (slots_of size qs) after) in
        let short : q.nelts + length (slots_of size (qs ++ l.last ∷ [])) < rounds = omega (
          arith,
          ap length whole,
          length-append here (slots_of size (qs ++ l.last ∷ [])),
          length-slots_at q.elts size q.nelts,
        ) in
        visit-slots size rounds q.nelts 0 q (qs ++ l.last ∷ []) (omega arith)
          (AllFull-AllBegun l.nalloc qs l.last (full.1) v.some_room holds) short
        ∙ ap (λ s. some (s ++ slots_of size (qs ++ l.last ∷ [])))
            (slots_from-slots_at q.elts size q.nelts)
        ∙ ap some whole

-- NULL and the list as it was, or one more element that the iteration visits last.
abbrev pub Visits : (old : List ℕ) (l : Parts) (rounds : ℕ) → Option Pushed → Type 0
Visits old l rounds none = ⊥
Visits old l rounds (some r) =
    ((r.elt ≡ null) × (r.list ≡ l))
    ⊎ ((iterate rounds r.list ≡ some (old ++ r.elt ∷ [])) × IsList r.list)
