-- ===== src/Pool/Entries.antt =====
-- src/core/ngx_palloc.c, ngx_palloc_large and ngx_pmemalign: they keep the pool well formed with its
-- large allocations.
use nginx_inside_out.Prelude.{
  ℕ, ◌<◌, ◌≡◌, ◌≢◌, ◌⊎◌, inl, inr, refl, sym, ◌∙◌, subst, true, false, List, [], ◌∷◌, Option, none,
  some, Option-cases, Bool-cases, arith, ◌==◌, if◌then◌else◌,
}
use nginx_inside_out.Pool.State.{
  Block, Large, Heap, Pool, Libc, IsLibc, null, sizeof_large, ngx_memalign, ngx_alloc,
}
use nginx_inside_out.Pool.Small.{palloc_small}
use nginx_inside_out.Pool.Large.{
  reuse_entry, with_heap, give_back, add_large, palloc_large, pmemalign, empty_entry,
}
use nginx_inside_out.Pool.Total.{IsHeld}
use nginx_inside_out.Pool.Wf.{block_size_facts}
use nginx_inside_out.Pool.Whole.{NoBlockAt, NotListed, IsOwn, AllOwn, IsWhole}
use nginx_inside_out.Pool.Grow.{
  WholeBy, IsNext, NextBy, Reuses, reuse_entry-Reuses, fresh-IsWhole, fresh-IsOwn,
  give_back-WholeBy, palloc_small-IsNext,
}

pub with_large-IsWhole :
    (p : Pool) (ls : List Large)
    → IsWhole p
    → AllOwn ls p.blocks p.heap
    → IsWhole (record p { large = ls })
with_large-IsWhole p ls w o = record {
  pool = record {
    blocks = w.pool.blocks;
    apart = w.pool.apart;
    live = w.pool.live;
    current = w.pool.current;
    limit = w.pool.limit;
  };
  distinct = w.distinct;
  large = o;
}

module _ (lib : Libc) (is : IsLibc lib) (clean : lib.garbage ≡ null) where
  add_large-WholeBy :
      (p : Pool) (q : ℕ)
      → IsWhole p
      → q ≢ null
      → IsOwn q p.large p.blocks p.heap
      → WholeBy (add_large lib p q)
  unfolding add_large
  add_large-WholeBy p q w pos own = go (palloc_small lib p sizeof_large true) (
      palloc_small-IsNext lib is clean p sizeof_large true w
        (omega (arith, block_size_facts p.blocks w.pool.blocks (omega (arith, w.pool.current)))))
    where
      owned :
          (p' : Pool) (entry : ℕ)
          → IsNext p p'
          → AllOwn (record { addr = entry; alloc = q } ∷ p'.large) p'.blocks p'.heap
      owned p' entry k =
          subst (λ ls. AllOwn (record { addr = entry; alloc = q } ∷ ls) p'.blocks p'.heap)
            (sym k.large) (k.own (record { addr = entry; alloc = q } ∷ p.large) (inr own, w.large))

      go :
          (r : ℕ × Pool)
          → NextBy p r
          → WholeBy (
              if r.0 == null
              then give_back q r.1
              else some (q, record (r.1) { large = record { addr = r.0; alloc = q } ∷ r.1.large }))
      go (entry, p') k = elim (Bool-cases (entry == null)) [
        | inl e ↦ elim (owned p' entry k).0 [
          | inl empty ↦ absurd (pos empty)
          | inr mine ↦ rw e (give_back-WholeBy p' q k.whole pos mine)
        ]
        | inr e ↦ rw e (with_large-IsWhole p' _ k.whole (owned p' entry k))
      ]

  pub palloc_large-WholeBy :
      (p : Pool) (n size : ℕ) → IsWhole p → WholeBy (palloc_large lib p n size)
  unfolding palloc_large ngx_alloc
  palloc_large-WholeBy p n size w = elim (Bool-cases (lib.malloc size p.heap == null)) [
    | inl failed ↦
        let nothing : ngx_alloc lib size p.heap ≡ (null, p.heap) = rw (ngx_alloc, failed) refl in
        subst Result (sym nothing) w
    | inr got ↦
        let pos : lib.malloc size p.heap ≢ null = ground arith in
        let fresh = (is.fresh size p.heap (ground arith)).1 in
        let own = fresh-IsOwn p (lib.malloc size p.heap) size w pos fresh in
        let more = fresh-IsWhole p (lib.malloc size p.heap) size w fresh in
        let obtained : ngx_alloc lib size p.heap ≡ (lib.malloc size p.heap, heap) =
          rw (ngx_alloc, got) refl in
        subst Result (sym obtained) (
          rw got (
            go (reuse_entry n (lib.malloc size p.heap) p.large)
              (reuse_entry-Reuses n (lib.malloc size p.heap) p.large p.blocks heap more.large own)
              more (add_large-WholeBy (with_heap p heap) (lib.malloc size p.heap) more pos own)))
  ]
    where
      Result : ℕ × Heap → Type 0
      Result r = WholeBy (
          if r.0 == null then some (null, p) else elim (reuse_entry n r.0 p.large) [
            | some large ↦ some (r.0, record p { large = large; heap = r.1 })
            | none ↦ add_large lib (with_heap p r.1) r.0
          ])

      heap : Heap
      heap = record { base = lib.malloc size p.heap; size = size } ∷ p.heap

      go :
          (r : Option (List Large))
          → Reuses (lib.malloc size p.heap) p.large p.blocks heap r
          → IsWhole (with_heap p heap)
          → WholeBy (add_large lib (with_heap p heap) (lib.malloc size p.heap))
          → WholeBy (elim r [
            | some large ↦ some (lib.malloc size p.heap, record p { large = large; heap = heap })
            | none ↦ add_large lib (with_heap p heap) (lib.malloc size p.heap)
          ])
      go none x more added = added
      go (some large) (o, keep) more added = with_large-IsWhole (with_heap p heap) large more o

  pub pmemalign-WholeBy :
      (p : Pool) (size alignment : ℕ)
      → 0 < size
      → IsWhole p
      → WholeBy (pmemalign lib p size alignment)
  unfolding pmemalign ngx_memalign
  pmemalign-WholeBy p size alignment some_size w =
      elim (Option-cases (lib.posix_memalign alignment size p.heap)) [
        | inl failed ↦ rw (pmemalign, ngx_memalign, failed, clean) w
        | inr (m, got) ↦
            let (pos, base, top, fresh) = is.aligned alignment size p.heap m some_size got in
            let ne : (m == null) ≡ false = ground arith in
            let nonnull : m ≢ null = ground arith in
            rw (pmemalign, ngx_memalign, got, ne)
              (add_large-WholeBy (with_heap p (record { base = m; size = size } ∷ p.heap)) m
                (fresh-IsWhole p m size w fresh) nonnull (fresh-IsOwn p m size w nonnull fresh))
      ]

-- An entry that is emptied: its memory belongs to nothing else.
abbrev pub Empties : (q : ℕ) → List Large → List Block → Heap → Option (List Large) → Type 0
Empties q ls bs h none = Unit {0}
Empties q ls bs h (some ls') =
    AllOwn ls' bs h
    × NotListed q ls'
    × IsHeld q h
    × NoBlockAt q bs
    × ((r : ℕ) → r ≢ null → NotListed r ls → NotListed r ls')

pub empty_entry-Empties :
    (q : ℕ) (ls : List Large) (bs : List Block) (h : Heap)
    → q ≢ null
    → AllOwn ls bs h
    → Empties q ls bs h (empty_entry q ls)
unfolding empty_entry
empty_entry-Empties q [] bs h pos o = tt
empty_entry-Empties q (l ∷ ls) bs h pos (mine, o) = elim (Bool-cases (q == l.alloc)) [
  | inl e ↦ let same : l.alloc ≡ q = ground arith in rw e (found same mine)
  | inr e ↦ rw e (behind (empty_entry q ls) (empty_entry-Empties q ls bs h pos o) (ground arith))
]
  where
    found :
        l.alloc ≡ q
        → (l.alloc ≡ null) ⊎ IsOwn l.alloc ls bs h
        → Empties q (l ∷ ls) bs h (some (record l { alloc = null } ∷ ls))
    found same (inl empty) = absurd (pos (sym same ∙ empty))
    found same (inr (held, nb, nl)) = (
      (inl refl, o),
      (λ e. pos (sym e), subst (λ k. NotListed k ls) same nl),
      subst (λ k. IsHeld k h) same held,
      subst (λ k. NoBlockAt k bs) same nb,
      λ r other (_, rest). (λ e. other (sym e), rest),
    )

    behind :
        (r : Option (List Large))
        → Empties q ls bs h r
        → l.alloc ≢ q
        → Empties q (l ∷ ls) bs h (elim r [ none ↦ none | some ls' ↦ some (l ∷ ls') ])
    behind none x ne = tt
    behind (some ls') (o', nl, held, nb, keep) ne =
        ((kept mine, o'), (ne, nl), held, nb, λ r other (first, rest). (first, keep r other rest))
      where
        kept : (l.alloc ≡ null) ⊎ IsOwn l.alloc ls bs h → (l.alloc ≡ null) ⊎ IsOwn l.alloc ls' bs h
        kept (inl empty) = inl empty
        kept (inr (held', nb', nl')) = elim (Bool-cases (l.alloc == null)) [
          | inl e ↦ inl (ground arith)
          | inr e ↦ inr (held', nb', keep l.alloc (ground arith) nl')
        ]
