-- ===== src/Pool/Lifetime.antt =====
-- src/core/ngx_palloc.c: a pool from ngx_create_pool through any calls to ngx_destroy_pool.
use nginx_inside_out.Prelude.{
  ℕ, ◌%◌, ◌≤◌, ◌<◌, ◌≡◌, ◌≢◌, ◌⊎◌, inl, inr, refl, subst, sym, ap, Bool-cases, true, false, List,
  [], ◌∷◌, Option, none, some, Option-cases, arith, ◌==◌, if◌then◌else◌, length,
}
use nginx_inside_out.Pool.State.{
  Block, Cleanup, Heap, Pool, Libc, IsLibc, null, sizeof_pool, pool_alignment, ngx_memalign,
}
use nginx_inside_out.Pool.Life.{
  fresh_pool, create_pool, free_large, free_blocks, main_addr, free_all, Call, Cleaned, ran, astray,
  with_call, cleaned, run_cleanup, Destroyed, destroyed, dead_free, stale_read, after_cleanup,
  destroy_pool,
}
use nginx_inside_out.Pool.Chain.{AllLive}
use nginx_inside_out.Pool.Blocks.{AllBlocks}
use nginx_inside_out.Pool.Ends.{AllDistinct, fresh_pool-IsPool, free_blocks_twice}
use nginx_inside_out.Pool.Whole.{AllOwn, IsWhole, IsFresh-NotHeld}
use nginx_inside_out.Pool.Reset.{Clears, free_large-Clears}
use nginx_inside_out.Pool.Destroy.{IsDestroyed, Destroys, free_all-Destroys}
use nginx_inside_out.Pool.History.{Operation, call_all, AllSized, AllWhole, call_all-AllWhole}

-- The cleanup entries are in memory of their own, or one of them is not.
abbrev pub AllKept : List Cleanup → Type 0
AllKept [] = Unit {0}
AllKept (c ∷ cs) = (c.kept ≡ true) × AllKept cs

abbrev pub HasStale : List Cleanup → Type 0
HasStale [] = ⊥
HasStale (c ∷ cs) = (c.kept ≡ false) ⊎ HasStale cs

-- The calls of all handlers, in order.
abbrev pub all_calls : List Cleanup → List Call
all_calls [] = []
all_calls (c ∷ cs) = with_call c (all_calls cs)

abbrev pub RunsBy : List Cleanup → Cleaned → Type 0
RunsBy cs (ran calls) = (calls ≡ all_calls cs) × AllKept cs
RunsBy cs (astray calls) = HasStale cs

run_cleanup-RunsBy : (cs : List Cleanup) → RunsBy cs (run_cleanup cs)
unfolding run_cleanup
run_cleanup-RunsBy [] = (refl, tt)
run_cleanup-RunsBy (c ∷ cs) = elim (Bool-cases c.kept) [
  | inl e ↦
      subst (λ k. RunsBy (c ∷ cs) (if k then cleaned c (run_cleanup cs) else astray [])) (sym e)
        (go e (run_cleanup cs) (run_cleanup-RunsBy cs))
  | inr e ↦
      subst (λ k. RunsBy (c ∷ cs) (if k then cleaned c (run_cleanup cs) else astray [])) (sym e)
        (inl e)
]
  where
    go : c.kept ≡ true → (r : Cleaned) → RunsBy cs r → RunsBy (c ∷ cs) (cleaned c r)
    go e (ran calls) (same, kept) = (ap (with_call c) same, (e, kept))
    go e (astray calls) stale = inr stale

-- What ngx_destroy_pool does: it runs all cleanup handlers and gives back one block and the large
-- allocations, or it runs them and frees the first of several blocks twice, or it reads a cleanup
-- entry from memory that has been given back.
abbrev pub Ends : Pool → Destroyed → Type 0
Ends p (destroyed calls h) =
    (calls ≡ all_calls p.cleanup)
    × AllKept p.cleanup
    × ((b : Block) × (p.blocks ≡ b ∷ []) × IsDestroyed p b h)
Ends p (dead_free calls) = (calls ≡ all_calls p.cleanup) × AllKept p.cleanup × (1 < length p.blocks)
Ends p (stale_read calls) = HasStale p.cleanup

-- What is freed, by the blocks of the pool.
Frees : Pool → List Block → Option Heap → Type 0
Frees p [] r = ⊥
Frees p (b ∷ []) r = Destroys p b r
Frees p (b ∷ c ∷ bs) none = Unit {0}
Frees p (b ∷ c ∷ bs) (some h) = ⊥

free_all-Frees : (p : Pool) → IsWhole p → Frees p p.blocks (free_all p)
unfolding free_all Frees
free_all-Frees p w = by_blocks p.blocks refl
  where
    twice :
        (b c : Block) (bs : List Block) (r : Option Heap)
        → b.addr ≢ null
        → Clears p.large (b ∷ c ∷ bs) p.heap r
        → (elim r [ none ↦ none | some h ↦ free_blocks b.addr (b ∷ c ∷ bs) h ]) ≡ none
    twice b c bs none pos cleared = refl
    twice b c bs (some h) pos cleared = free_blocks_twice b.addr b c bs h pos cleared.distinct

    by_blocks : (bs : List Block) → p.blocks ≡ bs → Frees p bs (free_all p)
    by_blocks [] e = absurd (omega (arith, subst (λ bs. p.current < length bs) e w.pool.current))
    by_blocks (b ∷ []) e = free_all-Destroys p b w e
    by_blocks (b ∷ c ∷ bs) e =
        subst (Frees p (b ∷ c ∷ bs))
          (sym (
            subst
              (λ all.
                (elim (free_large p.large p.heap) as (λ r. Option Heap) [
                  | none ↦ none
                  | some h ↦ free_blocks (main_addr all) all h
                ])
                ≡ none)
              (sym e)
              (twice b c bs (free_large p.large p.heap)
                (ground (arith, (subst AllBlocks e w.pool.blocks).0.nonnull))
                (free_large-Clears p.large (b ∷ c ∷ bs) p.heap w.distinct
                  (subst (λ all. AllLive all p.heap) e w.pool.live)
                  (subst (λ all. AllOwn p.large all p.heap) e w.large)))))
          tt

-- On a pool that is well formed with its large allocations, `ngx_destroy_pool` does one of three
-- things. If the memory of a cleanup entry has been given back by `ngx_reset_pool` or `ngx_pfree`, it
-- reads the entry from that memory. If not, it makes the calls of all cleanup handlers, in the order
-- of the list; then, if there is one block, it gives the block and the large allocations back to the
-- heap, and nothing else; if there are several, it passes `free` an address that is not live.
pub destroy_pool-Ends : (p : Pool) → IsWhole p → Ends p (destroy_pool p)
unfolding destroy_pool Frees
destroy_pool-Ends p w = by_cleanup (run_cleanup p.cleanup) (run_cleanup-RunsBy p.cleanup)
  where
    by_blocks :
        (calls : List Call) (bs : List Block) (r : Option Heap)
        → calls ≡ all_calls p.cleanup
        → AllKept p.cleanup
        → p.blocks ≡ bs
        → Frees p bs r
        → Ends p (after_cleanup calls r)
    by_blocks calls [] r same kept e f = absurd f
    by_blocks calls (b ∷ []) none same kept e f = absurd f
    by_blocks calls (b ∷ []) (some h) same kept e f = (same, kept, (b, e, f))
    by_blocks calls (b ∷ c ∷ bs) none same kept e f =
        (same, kept, subst (λ all. 1 < length all) (sym e) (omega arith))
    by_blocks calls (b ∷ c ∷ bs) (some h) same kept e f = absurd f

    by_cleanup :
        (r : Cleaned)
        → RunsBy p.cleanup r
        → Ends p (elim r [
          | ran calls ↦ after_cleanup calls (free_all p)
          | astray calls ↦ stale_read calls
        ])
    by_cleanup (ran calls) (same, kept) =
        by_blocks calls p.blocks (free_all p) same kept refl (free_all-Frees p w)
    by_cleanup (astray calls) stale = stale

-- No memory for the pool; or after the calls a pool that is well formed with its large allocations, and
-- what ngx_destroy_pool then does.
abbrev pub Lives : Libc → List Operation → (size : ℕ) → Heap → Option Pool → Type 0
Lives lib ops size h none = lib.posix_memalign pool_alignment size h ≡ none
Lives lib ops size h (some p) =
    (q : Pool) × (call_all lib ops p ≡ some q) × IsWhole q × Ends q (destroy_pool q)

module _ (lib : Libc) (is : IsLibc lib) (clean : lib.garbage ≡ null) where
  whole-Lives :
      (ops : List Operation) (size : ℕ) (h : Heap) (p : Pool)
      → AllSized ops
      → IsWhole p
      → Lives lib ops size h (some p)
  whole-Lives ops size h p sized w =
      left (call_all lib ops p) refl (call_all-AllWhole lib is clean ops p sized w)
    where
      left :
          (r : Option Pool)
          → call_all lib ops p ≡ r
          → AllWhole r
          → (q : Pool) × (call_all lib ops p ≡ some q) × IsWhole q × Ends q (destroy_pool q)
      left none e whole = absurd whole
      left (some q) e whole = (q, e, whole, destroy_pool-Ends q whole)

  -- With a C library as the manual pages promise it whose failing `posix_memalign` leaves NULL behind,
  -- over a heap whose chunks have different addresses, and for a size that is a multiple of 8 with room
  -- for the struct: ngx_create_pool returns NULL only where there is no memory. Any sequence of calls of
  -- `ngx_palloc`, `ngx_pnalloc`, `ngx_pmemalign` for sizes other than 0, `ngx_pfree`,
  -- `ngx_pool_cleanup_add` and `ngx_reset_pool` on the new pool runs without a fault and leaves a
  -- pool that is well formed with its large allocations. If then the memory of a cleanup entry has been
  -- given back by `ngx_reset_pool` or `ngx_pfree`, ngx_destroy_pool reads the entry from that memory.
  -- If not, it makes the calls of all cleanup handlers; and if the pool has one block, it gives the
  -- block and the large allocations back to the heap and nothing else; if it has several, it passes
  -- `free` an address that is not live.
  pub create_pool-Lives :
      (pagesize size : ℕ) (h : Heap) (ops : List Operation)
      → sizeof_pool ≤ size
      → size % 8 ≡ 0
      → AllDistinct h
      → AllSized ops
      → Lives lib ops size h (create_pool lib pagesize size h)
  unfolding create_pool ngx_memalign
  create_pool-Lives pagesize size h ops room multiple distinct sized =
      elim (Option-cases (lib.posix_memalign pool_alignment size h)) [
        | inl failed ↦ rw (create_pool, ngx_memalign, failed, clean) failed
        | inr (p, got) ↦
            let (pos, base, top, free) = is.aligned pool_alignment size h p (omega arith) got in
            let ne : (p == null) ≡ false = ground arith in
            rw (create_pool, ngx_memalign, got, ne)
              (whole-Lives ops size h
                (fresh_pool pagesize p size (record { base = p; size = size } ∷ h)) sized
                record {
                  pool =
                      fresh_pool-IsPool lib is clean pagesize size h room multiple p pos base top;
                  distinct = (IsFresh-NotHeld p size h free, distinct);
                  large = tt;
                })
      ]
