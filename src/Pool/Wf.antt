-- ===== src/Pool/Wf.antt =====
-- src/core/ngx_palloc.c: the invariant of a pool, and that small allocations keep it and give out
-- memory that nobody else has.
use nginx_inside_out.Prelude.{
  ℕ, ◌+◌, ◌%◌, ◌^◌, ◌≤◌, ◌<◌, ◌≡◌, ◌⊎◌, inl, inr, refl, Bool, true, false, List, [], ◌∷◌, ◌++◌,
  Option, none, some, Option-cases, arith, ◌==◌, length, length-append,
}
use nginx_inside_out.Pool.State.{
  Block, Pool, Heap, Libc, IsLibc, IsFresh, null, sizeof_pool, sizeof_data, pool_alignment,
  align_ptr, ngx_memalign,
}
use nginx_inside_out.Pool.Small.{
  serve_from, count_failures_from, block_size, new_block, extended, palloc_block, palloc_small,
}
use nginx_inside_out.Pool.Blocks.{
  IsBlock, AllBlocks, AllApart, Used, Bumped, here, there, IsAligned, Serves, serve_from-Serves,
  Bumped-AllBlocks, Bumped-AllApart, Bumped-Used, Bumped-fresh,
}
use nginx_inside_out.Pool.Chain.{
  AllLive, SameBlocks, count_failures_from-SameBlocks, count_failures_from-lt, SameBlocks-AllBlocks,
  SameBlocks-AllApart, SameBlocks-AllLive, SameBlocks-Used, length-SameBlocks, AllBlocks-snoc,
  AllApart-snoc, AllLive-snoc, Used-snoc, Used-last, not-Used_of_fresh,
}

-- The blocks are well formed, live and apart; `current` is one of them; what is served from blocks
-- fits a new one.
pub record IsPool (p : Pool) : Type 0 where
  pub blocks : AllBlocks p.blocks
  pub apart : AllApart p.blocks
  pub live : AllLive p.blocks p.heap
  pub current : p.current < length p.blocks
  pub limit : p.max + sizeof_pool ≤ block_size p.blocks

Bumped-AllLive :
    {size m : ℕ} (h : Heap) {bs bs' : List Block}
    → Bumped size m bs bs'
    → AllLive bs h
    → AllLive bs' h
Bumped-AllLive h (here low high) l = l
Bumped-AllLive h (there s) (l, ls) = (l, Bumped-AllLive h s ls)

length-Bumped : {size m : ℕ} {bs bs' : List Block} → Bumped size m bs bs' → length bs' ≡ length bs
length-Bumped (here low high) = refl
length-Bumped (there s) = omega (arith, length-Bumped s)

block_size-Bumped :
    {size m : ℕ} {bs bs' : List Block} → Bumped size m bs bs' → block_size bs' ≡ block_size bs
block_size-Bumped (here low high) = refl
block_size-Bumped (there s) = refl

-- Where a small allocation succeeds: the pool it leaves is well formed, the bytes it returns were in
-- use by nobody, are now, lie as asked, and nothing else has been given back.
pub record Given (p : Pool) (size : ℕ) (align : Bool) (m : ℕ) (p' : Pool) : Type 0 where
  pub pool : IsPool p'
  pub nonnull : 0 < m
  pub aligned : IsAligned align m
  pub fresh : (a : ℕ) → m ≤ a → a < m + size → (¬ Used p.blocks a) × Used p'.blocks a
  pub kept : (a : ℕ) → Used p.blocks a → Used p'.blocks a
  pub max_kept : p'.max ≡ p.max
  pub size_kept : block_size p'.blocks ≡ block_size p.blocks

Bumped-pos : {size m : ℕ} {bs bs' : List Block} → Bumped size m bs bs' → AllBlocks bs → 0 < m
Bumped-pos (here low high) (v, vs) = omega arith
Bumped-pos (there s) (v, vs) = Bumped-pos s vs

pub served-Given :
    (p : Pool) (size : ℕ) (align : Bool) {m : ℕ} {bs : List Block}
    → IsPool p
    → Bumped size m p.blocks bs
    → IsAligned align m
    → Given p size align m (record p { blocks = bs })
served-Given p size align v s al = record {
  pool = record {
    blocks = Bumped-AllBlocks s v.blocks;
    apart = Bumped-AllApart s v.apart;
    live = Bumped-AllLive p.heap s v.live;
    current = omega (arith, v.current, length-Bumped s);
    limit = omega (arith, v.limit, block_size-Bumped s);
  };
  nonnull = Bumped-pos s v.blocks;
  aligned = al;
  fresh = Bumped-fresh s v.blocks v.apart;
  kept = Bumped-Used s;
  max_kept = refl;
  size_kept = block_size-Bumped s;
}

pub block_size_facts :
    (bs : List Block)
    → AllBlocks bs
    → 0 < length bs
    → (block_size bs % 8 ≡ 0) × (sizeof_pool ≤ block_size bs)
block_size_facts [] v h = absurd (omega arith)
block_size_facts (b ∷ bs) (v, vs) h = omega arith

block_size-snoc :
    {bs bs' : List Block} (c : Block)
    → SameBlocks bs bs'
    → 0 < length bs
    → block_size (bs' ++ c ∷ []) ≡ block_size bs
block_size-snoc c SameBlocks.nil h = absurd (omega arith)
block_size-snoc c (SameBlocks.cons f s) h = refl

-- The new block that ngx_palloc_block makes of fresh memory.
module _ (p : Pool) (size m : ℕ) (v : IsPool p) (fits : size + sizeof_data ≤ block_size p.blocks)
    (pos : 0 < m) (base : m % 16 ≡ 0) (top : m + block_size p.blocks < 2 ^ 64)
    (free : IsFresh m (block_size p.blocks) p.heap) where
  abbrev psize : ℕ
  psize = block_size p.blocks

  abbrev counted : ℕ × List Block
  counted = count_failures_from p.current 0 p.current p.blocks

  abbrev added : Block
  added = new_block m psize size

  same : SameBlocks p.blocks counted.1
  same = count_failures_from-SameBlocks p.current 0 p.current p.blocks

  some_block : 0 < length p.blocks
  some_block = omega (arith, v.current)

  added-IsBlock : IsBlock added
  added-IsBlock =
      let (multiple, room) = block_size_facts p.blocks v.blocks some_block in
      record {
        nonnull = pos;
        base = base;
        low = omega arith;
        high = omega arith;
        ends = omega arith;
        top = top;
        header = omega arith;
      }

  extended-IsPool : IsPool (extended p m psize size (record { base = m; size = psize } ∷ p.heap))
  extended-IsPool = record {
    blocks = AllBlocks-snoc added counted.1 (SameBlocks-AllBlocks same v.blocks) added-IsBlock;
    apart =
        AllApart-snoc added counted.1 psize p.heap refl free (SameBlocks-AllLive p.heap same v.live)
          (SameBlocks-AllApart same v.apart);
    live = AllLive-snoc added counted.1 p.heap psize refl (SameBlocks-AllLive p.heap same v.live);
    current = omega (
      arith,
      v.current,
      length-append counted.1 (added ∷ []),
      length-SameBlocks same,
      count_failures_from-lt p.current 0 p.current (length p.blocks) p.blocks v.current
          (omega arith),
    );
    limit = omega (arith, v.limit, block_size-snoc added same some_block);
  }

  extended-Given :
      (align : Bool)
      → Given p size align
          (align_ptr (m + sizeof_data))
          (extended p m psize size (record { base = m; size = psize } ∷ p.heap))
  extended-Given align = record {
    pool = extended-IsPool;
    nonnull = omega arith;
    aligned = multiple align;
    fresh = λ a low high. (
      not-Used_of_fresh added p.blocks psize p.heap refl free v.live v.blocks a (omega arith)
          (omega (arith, added-IsBlock)),
      Used-last added counted.1 a (omega arith),
    );
    kept = λ a u. Used-snoc added counted.1 a (SameBlocks-Used same a u);
    max_kept = refl;
    size_kept = block_size-snoc added same some_block;
  }
    where
      multiple : (al : Bool) → IsAligned al (align_ptr (m + sizeof_data))
      multiple true = omega arith
      multiple false = tt

-- What a small allocation makes of a pool: NULL and the pool as it was, or what `Given` says.
abbrev pub SmallResult : Pool → (size : ℕ) → Bool → ℕ × Pool → Type 0
SmallResult p size align (m, p') = ((m ≡ null) × (p' ≡ p)) ⊎ Given p size align m p'

module _ (lib : Libc) (ok : IsLibc lib) (clean : lib.garbage ≡ null) (p : Pool) (size : ℕ)
    (v : IsPool p) (fits : size + sizeof_data ≤ block_size p.blocks) where
  palloc_block-Result : (align : Bool) → SmallResult p size align (palloc_block lib p size)
  unfolding palloc_block ngx_memalign
  palloc_block-Result align =
      elim (Option-cases (lib.posix_memalign pool_alignment (block_size p.blocks) p.heap)) [
        | inl failed ↦ rw (failed, clean) (inl (refl, refl))
        | inr (m, got) ↦
            let (pos, base, top, free) =
              ok.aligned pool_alignment (block_size p.blocks) p.heap m (omega arith) got in
            let ne : (m == null) ≡ false = ground arith in
            rw (got, ne) (inr (extended-Given p size m v fits pos base top free align))
      ]

  -- For a well-formed pool, a C library as the manual pages promise it whose failing
  -- `posix_memalign` leaves NULL behind, and a size that fits a new block, a small allocation
  -- returns NULL and leaves the pool as it was, or returns memory that was in use by nobody,
  -- aligned if asked, and leaves a well-formed pool in which that memory is in use and all that was
  -- in use still is.
  pub palloc_small-Result :
      (align : Bool) → SmallResult p size align (palloc_small lib p size align)
  unfolding palloc_small
  palloc_small-Result align =
      go (serve_from align size p.current p.blocks)
        (serve_from-Serves align size p.current p.blocks v.blocks)
    where
      go :
          (r : Option (ℕ × List Block))
          → Serves align size p.blocks r
          → SmallResult p size align (elim r [
            | some (m, blocks) ↦ (m, record p { blocks = blocks })
            | none ↦ palloc_block lib p size
          ])
      go none s = palloc_block-Result align
      go (some (m, bs)) (s, al) = inr (served-Given p size align v s al)
