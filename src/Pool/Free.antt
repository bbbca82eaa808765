-- ===== src/Pool/Free.antt =====
-- src/core/ngx_palloc.c: ngx_pfree takes what ngx_palloc_large gave.
use nginx_inside_out.Prelude.{
  map, ℕ, ◌+◌, ◌%◌, ◌^◌, ◌≡◌, ◌⊎◌, inl, inr, refl, sym, true, false, List, [], ◌∷◌, Option, none,
  some, Bool-cases, arith, ltb, ◌==◌, if◌then◌else◌,
}
use nginx_inside_out.Pool.State.{Large, Heap, Pool, Libc, null, sizeof_large, ngx_alloc, ngx_free}
use nginx_inside_out.Pool.Small.{palloc_small}
use nginx_inside_out.Pool.Large.{
  reuse_entry, with_heap, give_back, add_large, palloc_large, Freed, ok, declined, fault,
  empty_entry, without, pfree,
}
use nginx_inside_out.Pool.Total.{
  Returns, IsHeld, palloc_small-IsHeld, ngx_alloc-IsHeld, ngx_free-Returns,
}

-- An entry of the list has the address.
abbrev pub IsListed : (p : ℕ) → List Large → Type 0
IsListed p [] = ⊥
IsListed p (l ∷ ls) = (l.alloc ≡ p) ⊎ IsListed p ls

-- NGX_OK, with `p` given back to the heap.
abbrev pub IsFreed : (p : ℕ) → Heap → Freed → Type 0
IsFreed p h (ok q) = ngx_free p h ≡ some q.heap
IsFreed p h declined = ⊥
IsFreed p h fault = ⊥

-- NULL, or an address that ngx_pfree takes back.
abbrev pub IsFreeable : Option (ℕ × Pool) → Type 0
IsFreeable none = ⊥
IsFreeable (some (p, pool)) = (p ≡ null) ⊎ IsFreed p pool.heap (pfree pool p)

empty_entry-Returns : (p : ℕ) (ls : List Large) → IsListed p ls → Returns (empty_entry p ls)
unfolding empty_entry
empty_entry-Returns p [] i = i
empty_entry-Returns p (l ∷ ls) i = elim (Bool-cases (p == l.alloc)) [
  | inl e ↦ rw e tt
  | inr e ↦ rw e (behind (empty_entry p ls) (empty_entry-Returns p ls (other i e)))
]
  where
    other : (l.alloc ≡ p) ⊎ IsListed p ls → (p == l.alloc) ≡ false → IsListed p ls
    other (inl q) e = absurd (ground arith)
    other (inr j) e = j

    behind :
        (r : Option (List Large))
        → Returns r
        → Returns {A = List Large} (elim r [ none ↦ none | some ls' ↦ some (l ∷ ls') ])
    behind none x = x
    behind (some ls') x = tt

pfree-IsFreed :
    (pool : Pool) (p : ℕ)
    → IsListed p pool.large
    → IsHeld p pool.heap
    → IsFreed p pool.heap (pfree pool p)
unfolding pfree
pfree-IsFreed pool p i held = listed (empty_entry p pool.large) (empty_entry-Returns p pool.large i)
  where
    freed :
        (large : List Large) (r : Option Heap)
        → Returns r
        → r ≡ ngx_free p pool.heap
        → IsFreed p pool.heap (elim r [
          | none ↦ fault
          | some heap ↦
              ok
                (record pool { large = large; cleanup = map (without p) pool.cleanup; heap = heap })
        ])
    freed large none x e = x
    freed large (some h) x e = sym e

    listed :
        (r : Option (List Large))
        → Returns r
        → IsFreed p pool.heap (elim r [
          | none ↦ declined
          | some large ↦ elim (ngx_free p pool.heap) [
            | none ↦ fault
            | some heap ↦
                ok (record pool {
                  large = large;
                  cleanup = map (without p) pool.cleanup;
                  heap = heap;
                })
          ]
        ])
    listed none x = x
    listed (some large) x =
        freed large (ngx_free p pool.heap) (ngx_free-Returns p pool.heap held) refl

-- Where a free entry was found, it has the address now.
abbrev Reused : (p : ℕ) → Option (List Large) → Type 0
Reused p none = Unit {0}
Reused p (some ls) = IsListed p ls

reuse_entry-Reused : (n p : ℕ) (ls : List Large) → Reused p (reuse_entry n p ls)
unfolding reuse_entry
reuse_entry-Reused n p [] = tt
reuse_entry-Reused n p (l ∷ ls) = elim (Bool-cases (l.alloc == null)) [
  | inl e ↦ rw e (inl refl)
  | inr e ↦ elim (Bool-cases (ltb 3 n)) [
    | inl late ↦ rw (e, late) tt
    | inr early ↦
        rw (e, early)
          (behind (reuse_entry ((n + 1) % 2 ^ 64) p ls)
            (reuse_entry-Reused ((n + 1) % 2 ^ 64) p ls))
  ]
]
  where
    behind :
        (r : Option (List Large))
        → Reused p r
        → Reused p (elim r [ none ↦ none | some ls' ↦ some (l ∷ ls') ])
    behind none x = tt
    behind (some ls') x = inr x

add_large-IsFreeable :
    (lib : Libc) (pool : Pool) (p : ℕ) → IsHeld p pool.heap → IsFreeable (add_large lib pool p)
unfolding add_large
add_large-IsFreeable lib pool p i =
    go (palloc_small lib pool sizeof_large true)
      (palloc_small-IsHeld lib pool sizeof_large p true i)
  where
    freed :
        (pool' : Pool) (r : Option Heap)
        → Returns r
        → IsFreeable (elim r [ none ↦ none | some h ↦ some (null, with_heap pool' h) ])
    freed pool' none x = x
    freed pool' (some h) x = inl refl

    go :
        (r : ℕ × Pool)
        → IsHeld p r.1.heap
        → IsFreeable (
            if r.0 == null
            then give_back p r.1
            else some (p, record (r.1) { large = record { addr = r.0; alloc = p } ∷ r.1.large }))
    go (entry, pool') held = elim (Bool-cases (entry == null)) [
      | inl e ↦ rw e (freed pool' (ngx_free p pool'.heap) (ngx_free-Returns p pool'.heap held))
      | inr e ↦ rw e (
          inr (
            pfree-IsFreed
              (record pool' { large = record { addr = entry; alloc = p } ∷ pool'.large }) p
              (inl refl) held))
    ]

-- On any pool, what `ngx_palloc_large` returns is NULL or an address for which `ngx_pfree` returns
-- NGX_OK and gives the memory back to the heap.
pub palloc_large-pfree :
    (lib : Libc) (pool : Pool) (n size : ℕ) → IsFreeable (palloc_large lib pool n size)
unfolding palloc_large
palloc_large-pfree lib pool n size =
    go (ngx_alloc lib size pool.heap) (ngx_alloc-IsHeld lib size pool.heap)
  where
    listed :
        (p : ℕ) (h : Heap) (r : Option (List Large))
        → IsHeld p h
        → Reused p r
        → IsFreeable (elim r [
          | some large ↦ some (p, record pool { large = large; heap = h })
          | none ↦ add_large lib (with_heap pool h) p
        ])
    listed p h none held x = add_large-IsFreeable lib (with_heap pool h) p held
    listed p h (some large) held x =
        inr (pfree-IsFreed (record pool { large = large; heap = h }) p x held)

    go :
        (r : ℕ × Heap)
        → ((r.0 == null) ≡ false → IsHeld r.0 r.1)
        → IsFreeable (
            if r.0 == null then some (null, pool) else elim (reuse_entry n r.0 pool.large) [
              | some large ↦ some (r.0, record pool { large = large; heap = r.1 })
              | none ↦ add_large lib (with_heap pool r.1) r.0
            ])
    go (p, h) held = elim (Bool-cases (p == null)) [
      | inl e ↦ rw e (inl refl)
      | inr e ↦
          rw e
            (listed p h (reuse_entry n p pool.large) (held e) (reuse_entry-Reused n p pool.large))
    ]
