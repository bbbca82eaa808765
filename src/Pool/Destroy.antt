-- ===== src/Pool/Destroy.antt =====
-- src/core/ngx_palloc.c, ngx_destroy_pool, from the loop over the large allocations on: what it frees
-- of a pool that has one block.
use nginx_inside_out.Prelude.{
  ℕ, ◌≡◌, ◌≢◌, sym, subst, false, [], ◌∷◌, Option, none, some, arith, ◌==◌,
}
use nginx_inside_out.Pool.State.{Block, Heap, Pool, null, release, ngx_free}
use nginx_inside_out.Pool.Life.{free_large, free_blocks, main_addr, free_all}
use nginx_inside_out.Pool.Blocks.{AllBlocks}
use nginx_inside_out.Pool.Chain.{AllLive}
use nginx_inside_out.Pool.Total.{IsHeld}
use nginx_inside_out.Pool.Ends.{NotHeld}
use nginx_inside_out.Pool.Free.{IsListed}
use nginx_inside_out.Pool.Whole.{AllOwn, NotListed, IsWhole, Drops, release-Drops, IsLive-IsHeld}
use nginx_inside_out.Pool.Reset.{IsCleared, Clears, free_large-Clears}

-- The heap without the block and the large allocations, and with all else.
pub record IsDestroyed (p : Pool) (b : Block) (h : Heap) : Type 0 where
  pub block : NotHeld b.addr h
  pub large : (q : ℕ) → q ≢ null → IsListed q p.large → NotHeld q h
  pub kept : (q : ℕ) → q ≢ b.addr → NotListed q p.large → IsHeld q p.heap → IsHeld q h

abbrev pub Destroys : (p : Pool) → Block → Option Heap → Type 0
Destroys p b none = ⊥
Destroys p b (some h) = IsDestroyed p b h

-- On a pool that is well formed with its large allocations and has one block, this part comes
-- back without a fault: it gives the block and all large allocations back to the heap, and nothing else.
pub free_all-Destroys :
    (p : Pool) (b : Block) → IsWhole p → p.blocks ≡ b ∷ [] → Destroys p b (free_all p)
unfolding free_all free_blocks ngx_free
free_all-Destroys p b w one =
    subst
      (λ bs. Destroys p b (elim (free_large p.large p.heap) as (λ r. Option Heap) [
        | none ↦ none
        | some h ↦ free_blocks (main_addr bs) bs h
      ]))
      (sym one)
      (cleared (free_large p.large p.heap)
        (free_large-Clears p.large (b ∷ []) p.heap w.distinct
          (subst (λ bs. AllLive bs p.heap) one w.pool.live)
          (subst (λ bs. AllOwn p.large bs p.heap) one w.large))
        (ground (arith, (subst AllBlocks one w.pool.blocks).0.nonnull)))
  where
    block_freed :
        (h : Heap) (r : Option Heap)
        → IsCleared p.large (b ∷ []) p.heap h
        → Drops b.addr h r
        → Destroys p b (elim r [ none ↦ none | some h' ↦ some h' ])
    block_freed h none c d = d
    block_freed h (some h') c d = record {
      block = d.gone;
      large = λ q ne i. d.absent q (c.gone q ne i);
      kept = λ q ne n i. d.held q ne (c.held q n i);
    }

    cleared :
        (r : Option Heap)
        → Clears p.large (b ∷ []) p.heap r
        → (b.addr == null) ≡ false
        → Destroys p b (elim r [ none ↦ none | some h ↦ free_blocks b.addr (b ∷ []) h ])
    cleared none c live = c
    cleared (some h) c live =
        rw (free_blocks, ngx_free, live)
          (block_freed h (release b.addr h) c
            (release-Drops b.addr h c.distinct (IsLive-IsHeld b h c.blocks.0)))
