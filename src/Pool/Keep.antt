-- ===== src/Pool/Keep.antt =====
-- src/core/ngx_palloc.c, ngx_palloc_small: the large allocations stay memory of their own.
use nginx_inside_out.Prelude.{
  ℕ, ◌<◌, ◌≡◌, ◌≢◌, inl, inr, refl, false, Bool, List, [], ◌∷◌, ◌++◌, Option, none, some,
  Option-cases, arith, ◌==◌, length,
}
use nginx_inside_out.Pool.State.{
  Block, Large, Heap, Pool, Libc, IsLibc, IsFresh, null, pool_alignment, ngx_memalign,
}
use nginx_inside_out.Pool.Small.{
  serve_from, block_size, new_block, extended, palloc_block, palloc_small,
}
use nginx_inside_out.Pool.Blocks.{Bumped, here, there, Serves, serve_from-Serves}
use nginx_inside_out.Pool.Chain.{SameBlocks, nil, cons, count_failures_from-SameBlocks}
use nginx_inside_out.Pool.Total.{IsHeld}
use nginx_inside_out.Pool.Ends.{AllDistinct}
use nginx_inside_out.Pool.Wf.{IsPool, block_size_facts}
use nginx_inside_out.Pool.Whole.{NoBlockAt, AllOwn, IsHeld-other, IsFresh-NotHeld}

-- What an operation leaves to the large allocations, whatever they are.
pub record IsKept (p p' : Pool) : Type 0 where
  pub distinct : AllDistinct p'.heap
  pub own : (ls : List Large) → AllOwn ls p.blocks p.heap → AllOwn ls p'.blocks p'.heap
  pub large : p'.large ≡ p.large
  pub cleanup : p'.cleanup ≡ p.cleanup

abbrev pub KeptBy : Pool → ℕ × Pool → Type 0
KeptBy p (m, p') = IsKept p p'

-- Large allocations over other blocks and a heap that has what they need.
pub AllOwn-moved :
    (ls : List Large) (bs bs' : List Block) (h h' : Heap)
    → ((q : ℕ) → IsHeld q h → NoBlockAt q bs → IsHeld q h' × NoBlockAt q bs')
    → AllOwn ls bs h
    → AllOwn ls bs' h'
AllOwn-moved [] bs bs' h h' f o = tt
AllOwn-moved (l ∷ ls) bs bs' h h' f (inl empty, o) = (inl empty, AllOwn-moved ls bs bs' h h' f o)
AllOwn-moved (l ∷ ls) bs bs' h h' f (inr (held, nb, nl), o) =
    let (held', nb') = f l.alloc held nb in (inr (held', nb', nl), AllOwn-moved ls bs bs' h h' f o)

NoBlockAt-Bumped :
    {size m : ℕ} {bs bs' : List Block} (q : ℕ)
    → Bumped size m bs bs'
    → NoBlockAt q bs
    → NoBlockAt q bs'
NoBlockAt-Bumped q (here low high) n = n
NoBlockAt-Bumped q (there s) (ne, n) = (ne, NoBlockAt-Bumped q s n)

NoBlockAt-snoc :
    {bs bs' : List Block} (q : ℕ) (c : Block)
    → SameBlocks bs bs'
    → c.addr ≢ q
    → NoBlockAt q bs
    → NoBlockAt q (bs' ++ c ∷ [])
NoBlockAt-snoc q c nil ne n = (ne, tt)
NoBlockAt-snoc q c (cons f s) ne (first, n) = (first, NoBlockAt-snoc q c s ne n)

-- a chunk that is new to the heap
pub fresh-Distinct :
    (m size : ℕ) (h : Heap)
    → IsFresh m size h
    → AllDistinct h
    → AllDistinct (record { base = m; size = size } ∷ h)
fresh-Distinct m size h f d = (IsFresh-NotHeld m size h f, d)

module _ (lib : Libc) (ok : IsLibc lib) (clean : lib.garbage ≡ null) (p : Pool) (size : ℕ)
    (align : Bool) (w : IsPool p) (distinct : AllDistinct p.heap) where
  extended-IsKept :
      (m : ℕ)
      → IsFresh m (block_size p.blocks) p.heap
      → IsKept p (
          extended p m
            (block_size p.blocks)
            size
            (record { base = m; size = block_size p.blocks } ∷ p.heap))
  extended-IsKept m free = record {
    distinct = fresh-Distinct m (block_size p.blocks) p.heap free distinct;
    own = λ ls. AllOwn-moved ls p.blocks _ p.heap _ (λ q held nb. (
      inr held,
      NoBlockAt-snoc q (new_block m (block_size p.blocks) size)
          (count_failures_from-SameBlocks p.current 0 p.current p.blocks)
          (IsHeld-other q m p.heap held (IsFresh-NotHeld m (block_size p.blocks) p.heap free)) nb,
    ));
    large = refl;
    cleanup = refl;
  }

  same-IsKept : IsKept p p
  same-IsKept = record { distinct = distinct; own = λ ls o. o; large = refl; cleanup = refl }

  palloc_block-IsKept : 0 < length p.blocks → KeptBy p (palloc_block lib p size)
  unfolding palloc_block ngx_memalign
  palloc_block-IsKept some_block =
      elim (Option-cases (lib.posix_memalign pool_alignment (block_size p.blocks) p.heap)) [
        | inl failed ↦ rw (palloc_block, failed, clean) same-IsKept
        | inr (m, got) ↦
            let (pos, base, top, free) =
              ok.aligned pool_alignment (block_size p.blocks) p.heap m
                (omega (arith, block_size_facts p.blocks w.blocks some_block)) got in
            let ne : (m == null) ≡ false = ground arith in
            rw (palloc_block, got, ne) (extended-IsKept m free)
      ]

  pub palloc_small-IsKept : KeptBy p (palloc_small lib p size align)
  unfolding palloc_small
  palloc_small-IsKept =
      go (serve_from align size p.current p.blocks)
        (serve_from-Serves align size p.current p.blocks w.blocks)
    where
      go :
          (r : Option (ℕ × List Block))
          → Serves align size p.blocks r
          → KeptBy p (elim r [
            | some (m, blocks) ↦ (m, record p { blocks = blocks })
            | none ↦ palloc_block lib p size
          ])
      go none s = palloc_block-IsKept (omega (arith, w.current))
      go (some (m, bs)) (s, al) = record {
        distinct = distinct;
        own = λ ls.
            AllOwn-moved ls p.blocks bs p.heap p.heap
              (λ q held nb. (held, NoBlockAt-Bumped q s nb));
        large = refl;
        cleanup = refl;
      }
