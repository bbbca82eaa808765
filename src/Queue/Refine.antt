-- ===== src/Queue/Refine.antt =====
-- src/core/ngx_queue.h: the macros do to the ring what list operations do to its elements.
use nginx_inside_out.Prelude.{
  ℕ, ◌≡◌, ◌≢◌, sym, List, [], ◌∷◌, ◌++◌, arith, Bool, true, false, ◌==◌, refl,
}
use nginx_inside_out.Queue.{
  Links, queue_init, queue_empty, queue_insert_head, queue_insert_tail, queue_remove,
  queue_remove_debug, update,
}
use nginx_inside_out.Queue.Ring.{
  NotIn, In, ne_of_In, AllDistinct, Chain, IsQueue, Chain-frame, last-in, first-in,
}

-- An initialised head is a well-formed queue without elements.
pub queue_init-IsQueue : (q : ℕ) (s : Links) → IsQueue (queue_init q s) q []
unfolding queue_init
queue_init-IsQueue q s = ground arith

abbrev pub is_empty : List ℕ → Bool
is_empty [] = true
is_empty (x ∷ xs) = false

-- Of a well-formed queue `ngx_queue_empty` tells whether it has no elements.
pub queue_empty-is_empty :
    (s : Links) (h : ℕ) (xs : List ℕ) → IsQueue s h xs → queue_empty h s ≡ is_empty xs
unfolding queue_empty
queue_empty-is_empty s h [] q = ground arith
queue_empty-is_empty s h (x ∷ xs) q =
    ground (arith, last-in s x h h xs (q.chain.2) (q.apart.1) (q.apart.0))

-- In a well-formed queue, `ngx_queue_insert_head` puts in front an element that is neither the head
-- nor in the queue, and leaves a well-formed queue.
pub queue_insert_head-cons :
    (s : Links) (h x : ℕ) (xs : List ℕ)
    → IsQueue s h xs
    → x ≢ h
    → NotIn x xs
    → IsQueue (queue_insert_head h x s) h (x ∷ xs)
unfolding queue_insert_head
queue_insert_head-cons s h x [] q ne new = ground arith
queue_insert_head-cons s h x (y ∷ ys) q ne new = record {
  chain = (
    ground arith,
    ground arith,
    (
      ground (arith, q.chain.0),
      ground (arith, q.chain.0),
      Chain-frame s (queue_insert_head h x s) y h ys (ground arith) (ground arith) same q.chain.2,
    ),
  );
  apart = ground arith;
  distinct = (new, q.distinct);
}
  where
    same :
        (z : ℕ)
        → In z ys
        → ((queue_insert_head h x s).next z ≡ s.next z)
          × ((queue_insert_head h x s).prev z ≡ s.prev z)
    same z i =
        let ne_h = ne_of_In h z ys q.apart.1 i in
        let ne_x = ne_of_In x z ys new.1 i in
        let ne_y = ne_of_In y z ys q.distinct.0 i in ground (arith, q.chain.0)

-- What `ngx_queue_insert_tail` leaves: the links of `x`, of the head's predecessor and of the head.
module _ (s : Links) (h x : ℕ) where
  abbrev grown : Links
  grown = queue_insert_tail h x s

  grown-Chain :
      (a : ℕ) (xs : List ℕ)
      → Chain s a xs h
      → x ≢ h
      → x ≢ a
      → NotIn x xs
      → NotIn h xs
      → NotIn a xs
      → AllDistinct xs
      → Chain grown a (xs ++ x ∷ []) h
  unfolding queue_insert_tail
  grown-Chain a [] (n, p) ne ne' new apart fresh d = (ground arith, ground arith, ground arith)
  grown-Chain a (y ∷ ys) (n, p, c) ne ne' (nx, new) (nh, apart) (na, fresh) (dy, d) = (
    ground (arith, last-in s y h a ys c fresh na),
    ground arith,
    grown-Chain y ys c ne nx new apart dy d,
  )

NotIn-snoc : (z x : ℕ) (xs : List ℕ) → NotIn z xs → z ≢ x → NotIn z (xs ++ x ∷ [])
NotIn-snoc z x [] h ne = (ne, tt)
NotIn-snoc z x (y ∷ ys) (ne', h) ne = (ne', NotIn-snoc z x ys h ne)

AllDistinct-snoc : (x : ℕ) (xs : List ℕ) → AllDistinct xs → NotIn x xs → AllDistinct (xs ++ x ∷ [])
AllDistinct-snoc x [] d h = (tt, tt)
AllDistinct-snoc x (y ∷ ys) (dy, d) (ne, h) =
    (NotIn-snoc y x ys dy (λ e. ne (sym e)), AllDistinct-snoc x ys d h)

-- In a well-formed queue, `ngx_queue_insert_tail` puts behind all others an element that is neither
-- the head nor in the queue, and leaves a well-formed queue.
pub queue_insert_tail-snoc :
    (s : Links) (h x : ℕ) (xs : List ℕ)
    → IsQueue s h xs
    → x ≢ h
    → NotIn x xs
    → IsQueue (queue_insert_tail h x s) h (xs ++ x ∷ [])
queue_insert_tail-snoc s h x xs q ne new = record {
  chain = grown-Chain s h x h xs q.chain ne ne new q.apart q.apart q.distinct;
  apart = NotIn-snoc h x xs q.apart (λ e. ne (sym e));
  distinct = AllDistinct-snoc x xs q.distinct new;
}

-- Parts of a list that holds `x`.
NotIn-left : (z : ℕ) (xs ys : List ℕ) → NotIn z (xs ++ ys) → NotIn z xs
NotIn-left z [] ys h = tt
NotIn-left z (y ∷ xs) ys (ne, h) = (ne, NotIn-left z xs ys h)

NotIn-right : (z : ℕ) (xs ys : List ℕ) → NotIn z (xs ++ ys) → NotIn z ys
NotIn-right z [] ys h = h
NotIn-right z (y ∷ xs) ys (ne, h) = NotIn-right z xs ys h

AllDistinct-right : (xs ys : List ℕ) → AllDistinct (xs ++ ys) → AllDistinct ys
AllDistinct-right [] ys d = d
AllDistinct-right (x ∷ xs) ys (dx, d) = AllDistinct-right xs ys d

NotIn-without : (z x : ℕ) (xs ys : List ℕ) → NotIn z (xs ++ x ∷ ys) → NotIn z (xs ++ ys)
NotIn-without z x [] ys (ne, h) = h
NotIn-without z x (y ∷ xs) ys (ne, h) = (ne, NotIn-without z x xs ys h)

AllDistinct-without : (x : ℕ) (xs ys : List ℕ) → AllDistinct (xs ++ x ∷ ys) → AllDistinct (xs ++ ys)
AllDistinct-without x [] ys (dx, d) = d
AllDistinct-without x (y ∷ xs) ys (dy, d) =
    (NotIn-without y x xs ys dy, AllDistinct-without x xs ys d)

Chain-left :
    (s : Links) (a b x : ℕ) (front back : List ℕ)
    → Chain s a (front ++ x ∷ back) b
    → Chain s a front x
Chain-left s a b x [] back (n, p, c) = (n, p)
Chain-left s a b x (y ∷ ys) back (n, p, c) = (n, p, Chain-left s y b x ys back c)

Chain-right :
    (s : Links) (a b x : ℕ) (front back : List ℕ)
    → Chain s a (front ++ x ∷ back) b
    → Chain s x back b
Chain-right s a b x [] back (n, p, c) = c
Chain-right s a b x (y ∷ ys) back (n, p, c) = Chain-right s y b x ys back c

-- What `ngx_queue_remove` leaves of a chain that runs through `x`.
module _ (s : Links) (x : ℕ) where
  abbrev cut : Links
  cut = queue_remove x s

  cut-Chain :
      (a b : ℕ) (front back : List ℕ)
      → Chain s a (front ++ x ∷ back) b
      → NotIn b (front ++ x ∷ back)
      → NotIn a (front ++ x ∷ back)
      → AllDistinct (front ++ x ∷ back)
      → Chain cut a (front ++ back) b
  unfolding queue_remove
  cut-Chain a b [] [] (n, p, (n', p')) hb ha d = (ground arith, ground arith)
  cut-Chain a b [] (z ∷ zs) (n, p, (n', p', c)) hb ha d =
      (ground arith, ground arith, Chain-frame s cut z b zs (ground arith) (ground arith) same c)
    where
      same : (y : ℕ) → In y zs → (cut.next y ≡ s.next y) × (cut.prev y ≡ s.prev y)
      same y i =
          let ne_a = ne_of_In a y zs ha.1.1 i in
          let ne_z = ne_of_In z y zs d.1.0 i in let ne_x = d.0.0 in ground arith
  cut-Chain a b (y ∷ ys) back (n, p, c) hb ha d =
      let rest = Chain-right s y b x ys back c in
      let x_b = NotIn-right b ys (x ∷ back) hb.1 in
      let y_out = NotIn-right y ys (x ∷ back) d.0 in
      let x_out = AllDistinct-right ys (x ∷ back) d.1 in
      let before =
        last-in s y x a ys (Chain-left s y b x ys back c) (NotIn-left a ys (x ∷ back) ha.1) ha.0 in
      let behind = first-in s x b y back rest y_out.1 (λ e. hb.0 (sym e)) in
      let other = first-in s x b x back rest x_out.0 (λ e. x_b.0 (sym e)) in
      (ground arith, ground arith, cut-Chain y b ys back c hb.1 d.0 d.1)

-- In a well-formed queue, `ngx_queue_remove` takes an element out, wherever it stands, and leaves a
-- well-formed queue of the others in their order.
pub queue_remove-append :
    (s : Links) (h x : ℕ) (front back : List ℕ)
    → IsQueue s h (front ++ x ∷ back)
    → IsQueue (queue_remove x s) h (front ++ back)
queue_remove-append s h x front back q = record {
  chain = cut-Chain s x h h front back q.chain q.apart q.apart q.distinct;
  apart = NotIn-without h x front back q.apart;
  distinct = AllDistinct-without x front back q.distinct;
}

AllDistinct-NotIn : (x : ℕ) (xs ys : List ℕ) → AllDistinct (xs ++ x ∷ ys) → NotIn x (xs ++ ys)
AllDistinct-NotIn x [] ys (dx, d) = dx
AllDistinct-NotIn x (y ∷ xs) ys (dy, d) =
    let ne = (NotIn-right y xs (x ∷ ys) dy).0 in (λ e. ne (sym e), AllDistinct-NotIn x xs ys d)

update-other : (f : ℕ → ℕ) (a b v : ℕ) → b ≢ a → update f a v b ≡ f b
update-other f a b v ne = let off : (b == a) ≡ false = ground arith in rw off refl

queue_remove_debug-append :
    (s : Links) (h x : ℕ) (front back : List ℕ)
    → IsQueue s h (front ++ x ∷ back)
    → IsQueue (queue_remove_debug x s) h (front ++ back)
unfolding queue_remove_debug
queue_remove_debug-append s h x front back q =
    let ne = (NotIn-right h front (x ∷ back) q.apart).0 in
    let out = AllDistinct-NotIn x front back q.distinct in
    let cut_queue = queue_remove-append s h x front back q in
    record {
      chain =
          Chain-frame (queue_remove x s) (queue_remove_debug x s) h h (front ++ back)
            (update-other ((queue_remove x s).next) x h 0 ne)
            (update-other ((queue_remove x s).prev) x h 0 ne)
            (λ y i.
              let other = ne_of_In x y (front ++ back) out i in
              (
                update-other ((queue_remove x s).next) x y 0 (λ e. other (sym e)),
                update-other ((queue_remove x s).prev) x y 0 (λ e. other (sym e)),
              ))
            cut_queue.chain;
      apart = cut_queue.apart;
      distinct = cut_queue.distinct;
    }

-- In a well-formed queue, `ngx_queue_remove` takes an element out, wherever it stands, and leaves a
-- well-formed queue of the others in their order; with NGX_DEBUG it does so too, and the links
-- of the element that is taken out are NULL.
pub queue_remove-queue_remove_debug :
    (s : Links) (h x : ℕ) (front back : List ℕ)
    → IsQueue s h (front ++ x ∷ back)
    → IsQueue (queue_remove x s) h (front ++ back)
      × IsQueue (queue_remove_debug x s) h (front ++ back)
      × ((queue_remove_debug x s).prev x ≡ 0)
      × ((queue_remove_debug x s).next x ≡ 0)
unfolding queue_remove_debug
queue_remove-queue_remove_debug s h x front back q = (
  queue_remove-append s h x front back q,
  queue_remove_debug-append s h x front back q,
  ground arith,
  ground arith,
)
