-- ===== src/PartList/Append.antt =====
-- src/core/ngx_list.c: pushing appends a slot to the slots of the list.
use nginx_inside_out.Prelude.{
  ℕ, zero, suc, ◌+◌, ◌^◌, ◌≤◌, ◌<◌, ◌≡◌, ◌⊎◌, inl, inr, refl, ap, sym, ◌∙◌, true, List, [], ◌∷◌,
  ◌++◌, Option, none, some, ◌==◌, if◌then◌else◌, arith, Bool-cases, append-nil, append_assoc,
}
use nginx_inside_out.Pool.State.{Pool, Libc, null}
use nginx_inside_out.Pool.Large.{palloc}
use nginx_inside_out.Pool.Total.{Returns, palloc-Returns}
use nginx_inside_out.Array.{add_size, mul_size}
use nginx_inside_out.PartList.{
  Part, Parts, Pushed, take_slot, new_part, link_part, add_part, list_push, list_create, list_init,
  empty_list, sizeof_part, sizeof_list,
}

-- The addresses of the first `n` elements at `elts`.
abbrev pub slots_at : (elts size n : ℕ) → List ℕ
slots_at elts size zero = []
slots_at elts size (suc n) = slots_at elts size n ++ (elts + mul_size size n) ∷ []

abbrev pub slots_of : (size : ℕ) → List Part → List ℕ
slots_of size [] = []
slots_of size (q ∷ qs) = slots_at q.elts size q.nelts ++ slots_of size qs

-- What the iteration in the header's comment visits: the elements of every part, in order.
abbrev pub slots : Parts → List ℕ
slots l = slots_of l.size l.front ++ slots_at l.last.elts l.size l.last.nelts

-- Every part but the last is full, and the last holds no more than its capacity; one behind others
-- holds an element, and its elements are not at NULL.
abbrev pub AllFull : (nalloc : ℕ) → List Part → Type 0
AllFull nalloc [] = Unit {0}
AllFull nalloc (q ∷ qs) = (q.nelts ≡ nalloc) × AllFull nalloc qs

pub record IsList (l : Parts) : Type 0 where
  pub full : AllFull l.nalloc l.front
  pub fits : l.last.nelts ≤ l.nalloc
  pub some_room : 0 < l.nalloc
  pub word : l.nalloc < 2 ^ 64
  pub real : 0 < l.last.elts
  pub begun : (l.front ≡ []) ⊎ (0 < l.last.nelts)

-- NULL and the list as it was, or one more slot at the end, in the last part's capacity.
abbrev pub Appends : Parts → Option Pushed → Type 0
Appends l none = ⊥
Appends l (some r) =
    ((r.elt ≡ null) × (r.list ≡ l))
    ⊎ ((slots r.list ≡ slots l ++ r.elt ∷ []) × IsList r.list × (0 < r.elt))

AllFull-snoc :
    (nalloc : ℕ) (qs : List Part) (q : Part)
    → AllFull nalloc qs
    → q.nelts ≡ nalloc
    → AllFull nalloc (qs ++ q ∷ [])
AllFull-snoc nalloc [] q f e = (e, tt)
AllFull-snoc nalloc (r ∷ qs) q (g, f) e = (g, AllFull-snoc nalloc qs q f e)

pub slots_of-snoc :
    (size : ℕ) (qs : List Part) (q : Part)
    → slots_of size (qs ++ q ∷ []) ≡ slots_of size qs ++ slots_at q.elts size q.nelts
slots_of-snoc size [] q = append-nil (slots_at q.elts size q.nelts)
slots_of-snoc size (r ∷ qs) q = rw (slots_of-snoc size qs q) (
    sym (
      append_assoc (slots_at r.elts size r.nelts) (slots_of size qs)
        (slots_at q.elts size q.nelts)))

slots_at-suc :
    (elts size n : ℕ)
    → n + 1 < 2 ^ 64
    → slots_at elts size (add_size n 1) ≡ slots_at elts size n ++ (elts + mul_size size n) ∷ []
slots_at-suc elts size n h = let next : add_size n 1 ≡ suc n = omega arith in rw next refl

take_slot-slots :
    (l : Parts) (q : Part) (p : Pool)
    → q.nelts < l.nalloc
    → 0 < q.elts
    → AllFull l.nalloc l.front
    → l.nalloc < 2 ^ 64
    → let r = take_slot l q p in
      (slots r.list ≡ (slots_of l.size l.front ++ slots_at q.elts l.size q.nelts) ++ r.elt ∷ [])
      × IsList r.list
      × (0 < r.elt)
take_slot-slots l q p h real f w = (
  rw (slots_at-suc q.elts l.size q.nelts (omega arith)) (
      sym (
        append_assoc (slots_of l.size l.front) (slots_at q.elts l.size q.nelts)
          ((q.elts + mul_size l.size q.nelts) ∷ []))),
  record {
    full = f;
    fits = omega arith;
    some_room = omega arith;
    word = w;
    real = real;
    begun = inr (omega arith);
  },
  omega arith,
)

module _ (l : Parts) (v : IsList l) where
  link_part-Appends :
      (addr : ℕ) (r : Option (ℕ × Pool))
      → Returns r
      → l.last.nelts ≡ l.nalloc
      → Appends l (link_part l addr r)
  link_part-Appends addr none back e = back
  link_part-Appends addr (some (elts, p)) back e =
      let linked = record l { front = l.front ++ l.last ∷ [] } in
      let f = AllFull-snoc l.nalloc l.front l.last v.full e in
      let old : slots_of l.size (l.front ++ l.last ∷ []) ++ [] ≡ slots l =
        append-nil (slots_of l.size (l.front ++ l.last ∷ []))
        ∙ slots_of-snoc l.size l.front l.last in
      elim (Bool-cases (elts == null)) [
        | inl failed ↦ rw failed (inl (refl, refl))
        | inr got ↦
            let real : 0 < elts = ground arith in
            let (s, w, some_elt) =
              take_slot-slots linked (new_part addr elts) p v.some_room real f v.word in
            rw got (inr (s ∙ ap (λ k. k ++ (elts + mul_size l.size 0) ∷ []) old, w, some_elt))
      ]

  add_part-Appends :
      (lib : Libc) (garbage : ℕ) (r : Option (ℕ × Pool))
      → Returns r
      → l.last.nelts ≡ l.nalloc
      → Appends l (add_part lib garbage l r)
  add_part-Appends lib garbage none back e = back
  add_part-Appends lib garbage (some (addr, p)) back e =
      let bytes = mul_size l.nalloc l.size in
      elim (Bool-cases (addr == null)) [
        | inl failed ↦ rw failed (inl (refl, refl))
        | inr got ↦ rw got (
            link_part-Appends addr (palloc lib true p garbage bytes)
              (palloc-Returns lib true p garbage bytes) e)
      ]

  -- On a well-formed list a push comes back. It returns NULL and leaves the list as it was, or
  -- returns the address of one more element, which the iteration visits last, the other elements
  -- staying where they are, and leaves a well-formed list, in which no part holds more than its
  -- capacity.
  pub list_push-append :
      (lib : Libc) (garbage : ℕ) (p : Pool) → Appends l (list_push lib garbage l p)
  unfolding list_push
  list_push-append lib garbage p = elim (Bool-cases (l.last.nelts == l.nalloc)) [
    | inl full ↦
        let e : l.last.nelts ≡ l.nalloc = ground arith in
        rw full (
          add_part-Appends lib garbage (palloc lib true p garbage sizeof_part)
            (palloc-Returns lib true p garbage sizeof_part) e)
    | inr room ↦
        let less : l.last.nelts < l.nalloc = ground (arith, v.fits) in
        rw room (inr (take_slot-slots l l.last p less v.real v.full v.word))
  ]

-- What a new list is: no elements, and room for `n`.
abbrev pub Created : (n size : ℕ) → Option (Option Parts × Pool) → Type 0
Created n size none = ⊥
Created n size (some (none, p)) = Unit {0}
Created n size (some (some l, p)) = IsList l × (slots l ≡ []) × (l.nalloc ≡ n) × (l.size ≡ size)

module _ (lib : Libc) (garbage n size : ℕ) (pos : 0 < n) (word : n < 2 ^ 64) where
  list_init-Created : (p : Pool) (addr : ℕ) → Created n size (list_init lib p garbage addr n size)
  unfolding list_init
  list_init-Created p addr =
      go (palloc lib true p garbage (mul_size n size))
        (palloc-Returns lib true p garbage (mul_size n size))
    where
      go :
          (r : Option (ℕ × Pool))
          → Returns r
          → Created n size (elim r [
            | none ↦ none
            | some (elts, pool') ↦
                some (if elts == null then none else some (empty_list addr elts n size), pool')
          ])
      go none back = back
      go (some (elts, p')) back = elim (Bool-cases (elts == null)) [
        | inl failed ↦ rw failed tt
        | inr got ↦ rw got (
          record {
            full = tt;
            fits = omega arith;
            some_room = pos;
            word = word;
            real = ground arith;
            begun = inl refl;
          },
          refl,
          refl,
          refl,
        )
      ]

  -- Creating a list with parts of `n` elements, `n` a word other than 0, comes back, and where it
  -- does not return NULL the list is well formed, has no elements, and has the capacity and the
  -- element size asked for.
  pub list_create-Created : (p : Pool) → Created n size (list_create lib p garbage n size)
  unfolding list_create
  list_create-Created p =
      go (palloc lib true p garbage sizeof_list) (palloc-Returns lib true p garbage sizeof_list)
    where
      go :
          (r : Option (ℕ × Pool))
          → Returns r
          → Created n size (elim r [
            | none ↦ none
            | some (addr, pool') ↦
                if addr == null then some (none, pool') else list_init lib pool' garbage addr n size
          ])
      go none back = back
      go (some (addr, p')) back = elim (Bool-cases (addr == null)) [
        | inl failed ↦ rw failed tt
        | inr got ↦ rw got (list_init-Created p' addr)
      ]
