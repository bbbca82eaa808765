-- ===== src/Pool/Ends.antt =====
-- src/core/ngx_palloc.c: what ngx_create_pool makes, and what ngx_destroy_pool frees.
use nginx_inside_out.Prelude.{
  ℕ, ◌+◌, ◌%◌, ◌^◌, ◌≤◌, ◌<◌, ◌≡◌, ◌≢◌, inl, inr, refl, false, List, [], ◌∷◌, Option, none, some,
  Option-cases, Bool-cases, arith, ◌==◌,
}
use nginx_inside_out.Pool.State.{
  Block, Heap, Pool, Libc, IsLibc, null, sizeof_pool, pool_alignment, ngx_memalign, release,
  ngx_free,
}
use nginx_inside_out.Pool.Life.{fresh_pool, create_pool, free_blocks, main_addr}
use nginx_inside_out.Pool.Wf.{IsPool}

-- NULL only where there is no memory; otherwise a well-formed pool with nothing in it.
abbrev pub Made : Libc → (size : ℕ) → Heap → Option Pool → Type 0
Made lib size h none = lib.posix_memalign pool_alignment size h ≡ none
Made lib size h (some p) =
    IsPool p
    × (p.large ≡ [])
    × (p.cleanup ≡ [])
    × (p.heap ≡ record { base = main_addr p.blocks; size = size } ∷ h)

module _ (lib : Libc) (ok : IsLibc lib) (clean : lib.garbage ≡ null) (pagesize size : ℕ) (h : Heap)
    (room : sizeof_pool ≤ size) (multiple : size % 8 ≡ 0) where
  pub fresh_pool-IsPool :
      (p : ℕ)
      → 0 < p
      → p % 16 ≡ 0
      → p + size < 2 ^ 64
      → IsPool (fresh_pool pagesize p size (record { base = p; size = size } ∷ h))
  fresh_pool-IsPool p pos base top = record {
    blocks = (
      record {
        nonnull = pos;
        base = base;
        low = omega arith;
        high = omega arith;
        ends = omega arith;
        top = top;
        header = omega arith;
      },
      tt,
    );
    apart = (tt, tt);
    live = (inl (refl, refl), tt);
    current = omega arith;
    limit = ground arith;
  }

  -- With a C library as the manual pages promise it whose failing `posix_memalign` leaves NULL
  -- behind, and a size that is a multiple of 8 with room for the struct, `ngx_create_pool` returns
  -- NULL where there is no memory, and otherwise a well-formed pool without large allocations and
  -- cleanup entries, whose one block is the memory obtained.
  pub create_pool-IsPool : Made lib size h (create_pool lib pagesize size h)
  unfolding create_pool ngx_memalign
  create_pool-IsPool = elim (Option-cases (lib.posix_memalign pool_alignment size h)) [
    | inl failed ↦ rw (failed, clean) failed
    | inr (p, got) ↦
        let (pos, base, top, free) = ok.aligned pool_alignment size h p (omega arith) got in
        let ne : (p == null) ≡ false = ground arith in
        rw (got, ne) (fresh_pool-IsPool p pos base top, refl, refl, refl)
  ]

-- No chunk starts at `p`.
abbrev pub NotHeld : (p : ℕ) → Heap → Type 0
NotHeld p [] = Unit {0}
NotHeld p (c ∷ h) = (c.base ≢ p) × NotHeld p h

-- The live chunks have different addresses.
abbrev pub AllDistinct : Heap → Type 0
AllDistinct [] = Unit {0}
AllDistinct (c ∷ h) = NotHeld c.base h × AllDistinct h

release-NotHeld : (p : ℕ) (h : Heap) → NotHeld p h → release p h ≡ none
unfolding release
release-NotHeld p [] n = refl
release-NotHeld p (c ∷ h) (ne, n) =
    let other : (c.base == p) ≡ false = ground arith in rw (other, release-NotHeld p h n) refl

-- What is left after `p` has been freed, if anything is, does not have `p`.
abbrev pub Without : (p : ℕ) → Option Heap → Type 0
Without p none = Unit {0}
Without p (some h) = NotHeld p h

release-Without : (p : ℕ) (h : Heap) → AllDistinct h → Without p (release p h)
unfolding release
release-Without p [] d = tt
release-Without p (c ∷ h) (n, d) = elim (Bool-cases (c.base == p)) [
  | inl e ↦ let same : c.base ≡ p = ground arith in rw e (rw same at n)
  | inr e ↦ rw e (behind (release p h) (release-Without p h d) (ground arith))
]
  where
    behind :
        (r : Option Heap)
        → Without p r
        → c.base ≢ p
        → Without p (elim r [ none ↦ none | some h' ↦ some (c ∷ h') ])
    behind none w ne = tt
    behind (some h') w ne = (ne, w)

pub free_blocks_twice :
    (p : ℕ) (b c : Block) (bs : List Block) (h : Heap)
    → p ≢ null
    → AllDistinct h
    → free_blocks p (b ∷ c ∷ bs) h ≡ none
unfolding free_blocks ngx_free
free_blocks_twice p b c bs h pos d =
    let ne : (p == null) ≡ false = ground arith in
    rw (free_blocks, ngx_free, ne) (go (release p h) (release-Without p h d))
  where
    go :
        (r : Option Heap)
        → Without p r
        → (elim r [ none ↦ none | some h' ↦ free_blocks p (c ∷ bs) h' ]) ≡ none
    go none w = refl
    go (some h') w =
        let ne : (p == null) ≡ false = ground arith in
        rw (free_blocks, ngx_free, ne, release-NotHeld p h' w) refl
