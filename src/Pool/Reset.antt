-- ===== src/Pool/Reset.antt =====
-- src/core/ngx_palloc.c, ngx_reset_pool and the loop over the large allocations that it shares with
-- ngx_destroy_pool.
use nginx_inside_out.Prelude.{
  ℕ, ◌+◌, ◌≡◌, ◌≢◌, ◌⊎◌, inl, inr, refl, sym, ◌∙◌, List, [], ◌∷◌, Option, none, some, Bool-cases,
  arith, ◌==◌, map, length, subst,
}
use nginx_inside_out.Pool.State.{
  Block, Large, Heap, Pool, given_back, null, sizeof_pool, ngx_free, release,
}
use nginx_inside_out.Pool.Small.{block_size}
use nginx_inside_out.Pool.Life.{free_large, rewind, reset_pool}
use nginx_inside_out.Pool.Blocks.{AllBlocks, ApartFrom, AllApart}
use nginx_inside_out.Pool.Chain.{IsLive, AllLive}
use nginx_inside_out.Pool.Total.{IsHeld}
use nginx_inside_out.Pool.Ends.{NotHeld, AllDistinct}
use nginx_inside_out.Pool.Free.{IsListed}
use nginx_inside_out.Pool.Whole.{
  NoBlockAt, NotListed, IsOwn, AllOwn, IsWhole, IsDropped, Drops, release-Drops, AllOwn-dropped,
  AllLive-dropped,
}

-- The heap without the large allocations, and with all else.
pub record IsCleared (ls : List Large) (bs : List Block) (h h' : Heap) : Type 0 where
  pub distinct : AllDistinct h'
  pub blocks : AllLive bs h'
  pub absent : (q : ℕ) → NotHeld q h → NotHeld q h'
  pub gone : (q : ℕ) → q ≢ null → IsListed q ls → NotHeld q h'
  pub held : (q : ℕ) → NotListed q ls → IsHeld q h → IsHeld q h'

abbrev pub Clears : List Large → List Block → Heap → Option Heap → Type 0
Clears ls bs h none = ⊥
Clears ls bs h (some h') = IsCleared ls bs h h'

Clears-empty :
    (l : Large) (ls : List Large) (bs : List Block) (h : Heap) (r : Option Heap)
    → l.alloc ≡ null
    → Clears ls bs h r
    → Clears (l ∷ ls) bs h r
Clears-empty l ls bs h none e c = c
Clears-empty l ls bs h (some h') e c = record {
  distinct = c.distinct;
  blocks = c.blocks;
  absent = c.absent;
  gone = λ q ne i. elim i [ inl here ↦ absurd (ne (sym here ∙ e)) | inr there ↦ c.gone q ne there ];
  held = λ q (_, n). c.held q n;
}

Clears-dropped :
    (l : Large) (ls : List Large) (bs : List Block) (h h₁ : Heap) (r : Option Heap)
    → IsDropped l.alloc h h₁
    → Clears ls bs h₁ r
    → Clears (l ∷ ls) bs h r
Clears-dropped l ls bs h h₁ none d c = c
Clears-dropped l ls bs h h₁ (some h') d c = record {
  distinct = c.distinct;
  blocks = c.blocks;
  absent = λ q n. c.absent q (d.absent q n);
  gone = λ q ne i. elim i [
    | inl here ↦ c.absent q (subst (λ p. NotHeld p h₁) here d.gone)
    | inr there ↦ c.gone q ne there
  ];
  held = λ q (ne, n) i. c.held q n (d.held q (λ e. ne (sym e)) i);
}

pub free_large-Clears :
    (ls : List Large) (bs : List Block) (h : Heap)
    → AllDistinct h
    → AllLive bs h
    → AllOwn ls bs h
    → Clears ls bs h (free_large ls h)
unfolding free_large ngx_free
free_large-Clears [] bs h d live o = record {
  distinct = d;
  blocks = live;
  absent = λ q n. n;
  gone = λ q ne i. absurd i;
  held = λ q n i. i;
}
free_large-Clears (l ∷ ls) bs h d live (own, o) = elim (Bool-cases (l.alloc == null)) [
  | inl e ↦
      rw (free_large, ngx_free, e)
        (Clears-empty l ls bs h (free_large ls h) (ground arith)
          (free_large-Clears ls bs h d live o))
  | inr e ↦ rw (free_large, ngx_free, e) (go (free_large-Clears ls bs) own (ground arith))
]
  where
    freed :
        (r : Option Heap)
        → ((k : Heap)
            → AllDistinct k
            → AllLive bs k
            → AllOwn ls bs k
            → Clears ls bs k (free_large ls k))
        → Drops l.alloc h r
        → NoBlockAt l.alloc bs
        → NotListed l.alloc ls
        → Clears (l ∷ ls) bs h (elim r [ none ↦ none | some h' ↦ free_large ls h' ])
    freed none ih x nb nl = x
    freed (some h₁) ih x nb nl = Clears-dropped l ls bs h h₁ (free_large ls h₁) x (
        ih h₁ x.distinct (AllLive-dropped l.alloc bs h h₁ x nb live)
          (AllOwn-dropped l.alloc ls bs h h₁ x nl o))

    go :
        ((k : Heap)
          → AllDistinct k
          → AllLive bs k
          → AllOwn ls bs k
          → Clears ls bs k (free_large ls k))
        → (l.alloc ≡ null) ⊎ IsOwn l.alloc ls bs h
        → l.alloc ≢ null
        → Clears
            (l ∷ ls)
            bs
            h
            (elim (release l.alloc h) [ none ↦ none | some h' ↦ free_large ls h' ])
    go ih (inl empty) ne = absurd (ne empty)
    go ih (inr (held, nb, nl)) ne =
        freed (release l.alloc h) ih (release-Drops l.alloc h d held) nb nl

AllBlocks-rewind : (bs : List Block) → AllBlocks bs → AllBlocks (map rewind bs)
AllBlocks-rewind [] v = tt
AllBlocks-rewind (b ∷ bs) (v, vs) = (
  record {
    nonnull = v.nonnull;
    base = v.base;
    low = omega arith;
    high = v.header;
    ends = v.ends;
    top = v.top;
    header = v.header;
  },
  AllBlocks-rewind bs vs,
)

ApartFrom-rewind :
    (b : Block) (bs : List Block) → ApartFrom b bs → ApartFrom (rewind b) (map rewind bs)
ApartFrom-rewind b [] a = tt
ApartFrom-rewind b (c ∷ bs) (a, as_well) = (a, ApartFrom-rewind b bs as_well)

AllApart-rewind : (bs : List Block) → AllApart bs → AllApart (map rewind bs)
AllApart-rewind [] a = tt
AllApart-rewind (b ∷ bs) (a, rest) = (ApartFrom-rewind b bs a, AllApart-rewind bs rest)

IsLive-rewind : (b : Block) (h : Heap) → IsLive b h → IsLive (rewind b) h
IsLive-rewind b [] l = l
IsLive-rewind b (c ∷ h) (inl same) = inl same
IsLive-rewind b (c ∷ h) (inr l) = inr (IsLive-rewind b h l)

AllLive-rewind : (bs : List Block) (h : Heap) → AllLive bs h → AllLive (map rewind bs) h
AllLive-rewind [] h l = tt
AllLive-rewind (b ∷ bs) h (l, ls) = (IsLive-rewind b h l, AllLive-rewind bs h ls)

length-rewind : (bs : List Block) → length (map rewind bs) ≡ length bs
length-rewind [] = refl
length-rewind (b ∷ bs) = omega (arith, length-rewind bs)

block_size-rewind : (bs : List Block) → block_size (map rewind bs) ≡ block_size bs
block_size-rewind [] = refl
block_size-rewind (b ∷ bs) = refl

-- All of a block but the room of an ngx_pool_t is free.
abbrev pub AllRewound : List Block → Type 0
AllRewound [] = Unit {0}
AllRewound (b ∷ bs) = ((b.last ≡ b.addr + sizeof_pool) × (b.failed ≡ 0)) × AllRewound bs

rewind-AllRewound : (bs : List Block) → AllRewound (map rewind bs)
rewind-AllRewound [] = tt
rewind-AllRewound (b ∷ bs) = ((refl, refl), rewind-AllRewound bs)

-- A pool that is well formed again, in which all that was given out is free: the blocks are empty, and
-- the large allocations are back in the heap.
pub record IsReset (p p' : Pool) : Type 0 where
  pub whole : IsWhole p'
  pub blocks : (length p'.blocks ≡ length p.blocks) × AllRewound p'.blocks
  pub current : p'.current ≡ 0
  pub large : p'.large ≡ []
  pub gone : (q : ℕ) → q ≢ null → IsListed q p.large → NotHeld q p'.heap
  pub cleanup : p'.cleanup ≡ map given_back p.cleanup

abbrev pub Resets : Pool → Option Pool → Type 0
Resets p none = ⊥
Resets p (some p') = IsReset p p'

-- On a pool that is well formed with its large allocations, `ngx_reset_pool` comes back without a
-- fault. All blocks are kept and are free but for the room of an ngx_pool_t, all large allocations
-- have been given back to the heap, and the pool is well formed again. The cleanup entries stay in
-- their list, though their memory has been given back.
pub reset_pool-Resets : (p : Pool) → IsWhole p → Resets p (reset_pool p)
unfolding reset_pool
reset_pool-Resets p w =
    go (free_large p.large p.heap)
      (free_large-Clears p.large p.blocks p.heap w.distinct w.pool.live w.large)
  where
    go :
        (r : Option Heap)
        → Clears p.large p.blocks p.heap r
        → Resets p (elim r [
          | none ↦ none
          | some heap ↦ some (record p {
            blocks = map rewind p.blocks;
            current = 0;
            large = [];
            cleanup = map given_back p.cleanup;
            heap = heap;
          })
        ])
    go none c = c
    go (some h) c = record {
      whole = record {
        pool = record {
          blocks = AllBlocks-rewind p.blocks w.pool.blocks;
          apart = AllApart-rewind p.blocks w.pool.apart;
          live = AllLive-rewind p.blocks h c.blocks;
          current = omega (arith, length-rewind p.blocks, w.pool.current);
          limit = omega (arith, block_size-rewind p.blocks, w.pool.limit);
        };
        distinct = c.distinct;
        large = tt;
      };
      blocks = (length-rewind p.blocks, rewind-AllRewound p.blocks);
      current = refl;
      large = refl;
      gone = c.gone;
      cleanup = refl;
    }
