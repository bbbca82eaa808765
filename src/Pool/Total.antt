-- ===== src/Pool/Total.antt =====
-- src/core/ngx_palloc.c, ngx_palloc: what it gives back to `free` is live.
use nginx_inside_out.Prelude.{
  ℕ, ◌≡◌, ◌⊎◌, inl, inr, refl, Bool, true, false, List, [], ◌∷◌, Option, none, some, Option-cases,
  Bool-cases, arith, leb, ◌==◌, if◌then◌else◌,
}
use nginx_inside_out.Pool.State.{
  Large, Heap, Pool, Libc, null, sizeof_large, pool_alignment, memalign_heap, memalign_result,
  ngx_memalign, ngx_alloc, release, ngx_free,
}
use nginx_inside_out.Pool.Small.{serve_from, block_size, palloc_block, palloc_small}
use nginx_inside_out.Pool.Large.{reuse_entry, with_heap, give_back, add_large, palloc_large, palloc}

-- The call comes back.
abbrev pub Returns {ℓ} : {A : Type ℓ} → Option A → Type 0
Returns none = ⊥
Returns (some r) = Unit {0}

-- The address is that of a live chunk.
abbrev pub IsHeld : (p : ℕ) → Heap → Type 0
IsHeld p [] = ⊥
IsHeld p (c ∷ h) = (c.base ≡ p) ⊎ IsHeld p h

pub release-Returns : (p : ℕ) (h : Heap) → IsHeld p h → Returns (release p h)
unfolding release
release-Returns p [] i = i
release-Returns p (c ∷ h) i = elim (Bool-cases (c.base == p)) [
  | inl e ↦ rw e tt
  | inr e ↦ rw e (behind (release p h) (release-Returns p h (other i e)))
]
  where
    other : (c.base ≡ p) ⊎ IsHeld p h → (c.base == p) ≡ false → IsHeld p h
    other (inl q) e = absurd (ground arith)
    other (inr j) e = j

    behind :
        (r : Option Heap)
        → Returns r
        → Returns {A = Heap} (elim r [ none ↦ none | some h' ↦ some (c ∷ h') ])
    behind none x = x
    behind (some h') x = tt

pub ngx_free-Returns : (p : ℕ) (h : Heap) → IsHeld p h → Returns (ngx_free p h)
unfolding ngx_free
ngx_free-Returns p h i = elim (Bool-cases (p == null)) [
  | inl e ↦ rw e tt
  | inr e ↦ rw e (release-Returns p h i)
]

memalign_heap-IsHeld :
    (p size : ℕ) (r : Option ℕ) (h : Heap) → IsHeld p h → IsHeld p (memalign_heap size r h)
memalign_heap-IsHeld p size none h i = i
memalign_heap-IsHeld p size (some m) h i = inr i

-- A small allocation frees nothing.
pub palloc_small-IsHeld :
    (lib : Libc) (pool : Pool) (size p : ℕ) (align : Bool)
    → IsHeld p pool.heap
    → IsHeld p (palloc_small lib pool size align).1.heap
unfolding palloc_small palloc_block ngx_memalign
palloc_small-IsHeld lib pool size p align i =
    elim (Option-cases (serve_from align size pool.current pool.blocks)) [
      | inr (r, e) ↦ rw (palloc_small, e) i
      | inl e ↦
          let r = lib.posix_memalign pool_alignment (block_size pool.blocks) pool.heap in
          let kept = memalign_heap-IsHeld p (block_size pool.blocks) r pool.heap i in
          elim (Bool-cases (memalign_result lib r == null)) [
            | inl failed ↦ rw (palloc_small, e, palloc_block, failed) kept
            | inr got ↦ rw (palloc_small, e, palloc_block, got) kept
          ]
    ]

add_large-Returns :
    (lib : Libc) (pool : Pool) (p : ℕ) → IsHeld p pool.heap → Returns (add_large lib pool p)
unfolding add_large
add_large-Returns lib pool p i =
    go (palloc_small lib pool sizeof_large true)
      (palloc_small-IsHeld lib pool sizeof_large p true i)
  where
    freed :
        (pool' : Pool) (r : Option Heap)
        → Returns r
        → Returns {A = ℕ × Pool} (elim r [ none ↦ none | some h ↦ some (null, with_heap pool' h) ])
    freed pool' none x = x
    freed pool' (some h) x = tt

    go :
        (r : ℕ × Pool)
        → IsHeld p r.1.heap
        → Returns (
            if r.0 == null
            then give_back p r.1
            else some (p, record (r.1) { large = record { addr = r.0; alloc = p } ∷ r.1.large }))
    go (entry, pool') held = elim (Bool-cases (entry == null)) [
      | inl e ↦ rw e (freed pool' (ngx_free p pool'.heap) (ngx_free-Returns p pool'.heap held))
      | inr e ↦ rw e tt
    ]

pub ngx_alloc-IsHeld :
    (lib : Libc) (size : ℕ) (h : Heap)
    → ((ngx_alloc lib size h).0 == null) ≡ false
    → IsHeld ((ngx_alloc lib size h).0) ((ngx_alloc lib size h).1)
unfolding ngx_alloc
ngx_alloc-IsHeld lib size h = elim (Bool-cases (lib.malloc size h == null)) [
  | inl e ↦ rw e (λ q. absurd (ground arith))
  | inr e ↦ rw e (λ q. inl refl)
]

palloc_large-Returns :
    (lib : Libc) (pool : Pool) (n size : ℕ) → Returns (palloc_large lib pool n size)
unfolding palloc_large
palloc_large-Returns lib pool n size =
    go (ngx_alloc lib size pool.heap) (ngx_alloc-IsHeld lib size pool.heap)
  where
    listed :
        (p : ℕ) (h : Heap) (r : Option (List Large))
        → IsHeld p h
        → Returns {A = ℕ × Pool} (elim r [
          | some large ↦ some (p, record pool { large = large; heap = h })
          | none ↦ add_large lib (with_heap pool h) p
        ])
    listed p h none held = add_large-Returns lib (with_heap pool h) p held
    listed p h (some large) held = tt

    go :
        (r : ℕ × Heap)
        → ((r.0 == null) ≡ false → IsHeld r.0 r.1)
        → Returns {A = ℕ × Pool} (
            if r.0 == null then some (null, pool) else elim (reuse_entry n r.0 pool.large) [
              | some large ↦ some (r.0, record pool { large = large; heap = r.1 })
              | none ↦ add_large lib (with_heap pool r.1) r.0
            ])
    go (p, h) held = elim (Bool-cases (p == null)) [
      | inl e ↦ rw e tt
      | inr e ↦ rw e (listed p h (reuse_entry n p pool.large) (held e))
    ]

-- `ngx_palloc` and `ngx_pnalloc` come back without a fault: on no pool do they pass `free` an
-- address that is not live.
pub palloc-Returns :
    (lib : Libc) (align : Bool) (pool : Pool) (n size : ℕ) → Returns (palloc lib align pool n size)
unfolding palloc
palloc-Returns lib align pool n size = elim (Bool-cases (leb size pool.max)) [
  | inl small ↦ rw small tt
  | inr large ↦ rw large (palloc_large-Returns lib pool n size)
]
