-- ===== src/Pool/History.antt =====
-- src/core/ngx_palloc.c: calls on one pool, in any order.
use nginx_inside_out.Prelude.{
  ℕ, ◌<◌, ◌≡◌, true, Bool, List, [], ◌∷◌, Option, none, some, Bool-cases, inl, inr, arith, leb,
  ◌==◌,
}
use nginx_inside_out.Pool.State.{Pool, Libc, IsLibc, null, sizeof_cleanup}
use nginx_inside_out.Pool.Small.{palloc_small}
use nginx_inside_out.Pool.Large.{
  palloc, pmemalign, Freed, ok, declined, fault, pfree, register, register_data, register_cleanup,
  pool_cleanup_add,
}
use nginx_inside_out.Pool.Life.{reset_pool}
use nginx_inside_out.Pool.Whole.{IsWhole, with_cleanup-IsWhole}
use nginx_inside_out.Pool.Grow.{WholeBy, NextBy, palloc_small-IsNext}
use nginx_inside_out.Pool.Entries.{palloc_large-WholeBy, pmemalign-WholeBy}
use nginx_inside_out.Pool.Freed.{WholeFreed, pfree-WholeFreed}
use nginx_inside_out.Pool.Reset.{Resets, reset_pool-Resets}

-- A call of ngx_palloc or ngx_pnalloc, ngx_pmemalign, ngx_pfree, ngx_pool_cleanup_add, ngx_reset_pool.
pub data Operation : Type 0 where
  take : (align : Bool) (n size : ℕ) → Operation
  take_aligned : (size alignment : ℕ) → Operation
  give : (q : ℕ) → Operation
  add_cleanup : (n size : ℕ) → Operation
  reset : Operation

abbrev pub pool_of : Option (ℕ × Pool) → Option Pool
pool_of none = none
pool_of (some (m, p)) = some p

abbrev pub freed_pool : Pool → Freed → Option Pool
freed_pool p (ok p') = some p'
freed_pool p declined = some p
freed_pool p fault = none

-- the pool that a call leaves, `none` where it meets a fault
abbrev pub call : Libc → Operation → Pool → Option Pool
call lib (take align n size) p = pool_of (palloc lib align p n size)
call lib (take_aligned size alignment) p = pool_of (pmemalign lib p size alignment)
call lib (give q) p = freed_pool p (pfree p q)
call lib (add_cleanup n size) p = pool_of (pool_cleanup_add lib p n size)
call lib reset p = reset_pool p

-- the calls one after the other
unfoldable pub call_all : Libc → List Operation → Pool → Option Pool
call_all lib [] p = some p
call_all lib (op ∷ ops) p = elim (call lib op p) [ none ↦ none | some p' ↦ call_all lib ops p' ]

-- ngx_pmemalign is not asked for nothing.
abbrev pub AllSized : List Operation → Type 0
AllSized [] = Unit {0}
AllSized (take_aligned size alignment ∷ ops) = (0 < size) × AllSized ops
AllSized (_ ∷ ops) = AllSized ops

abbrev pub AllWhole : Option Pool → Type 0
AllWhole none = ⊥
AllWhole (some p) = IsWhole p

pool_of-AllWhole : (r : Option (ℕ × Pool)) → WholeBy r → AllWhole (pool_of r)
pool_of-AllWhole none w = w
pool_of-AllWhole (some (m, p)) w = w

freed_pool-AllWhole : (p : Pool) (r : Freed) → IsWhole p → WholeFreed r → AllWhole (freed_pool p r)
freed_pool-AllWhole p (ok p') w f = f
freed_pool-AllWhole p declined w f = w
freed_pool-AllWhole p fault w f = f

Resets-AllWhole : (p : Pool) (r : Option Pool) → Resets p r → AllWhole r
Resets-AllWhole p none r = r
Resets-AllWhole p (some p') r = r.whole

register-IsWhole : (c arg : ℕ) (p : Pool) → IsWhole p → IsWhole (register c arg p)
register-IsWhole c arg p w = with_cleanup-IsWhole _ p w

module _ (lib : Libc) (is : IsLibc lib) (clean : lib.garbage ≡ null) where
  palloc-WholeBy :
      (align : Bool) (p : Pool) (n size : ℕ) → IsWhole p → WholeBy (palloc lib align p n size)
  unfolding palloc
  palloc-WholeBy align p n size w = elim (Bool-cases (leb size p.max)) [
    | inl small ↦ rw small (
        go (palloc_small lib p size align)
          (palloc_small-IsNext lib is clean p size align w (ground (arith, w.pool.limit))))
    | inr large ↦ rw large (palloc_large-WholeBy lib is clean p n size w)
  ]
    where
      go : (r : ℕ × Pool) → NextBy p r → WholeBy (some r)
      go (m, p') k = k.whole

  register_data-WholeBy : (c : ℕ) (r : Option (ℕ × Pool)) → WholeBy r → WholeBy (register_data c r)
  register_data-WholeBy c none w = w
  register_data-WholeBy c (some (arg, p)) w = elim (Bool-cases (arg == null)) [
    | inl e ↦ rw e w
    | inr e ↦ rw e (register-IsWhole c arg p w)
  ]

  register_cleanup-WholeBy :
      (n size : ℕ) (r : Option (ℕ × Pool)) → WholeBy r → WholeBy (register_cleanup lib n size r)
  register_cleanup-WholeBy n size none w = w
  register_cleanup-WholeBy n size (some (c, p)) w = elim (Bool-cases (c == null)) [
    | inl e ↦ rw e w
    | inr e ↦ elim (Bool-cases (size == 0)) [
      | inl empty ↦ rw (e, empty) (register-IsWhole c null p w)
      | inr more ↦
          rw (e, more)
            (register_data-WholeBy c (palloc lib true p n size) (palloc-WholeBy true p n size w))
    ]
  ]

  call-AllWhole :
      (op : Operation) (p : Pool) → AllSized (op ∷ []) → IsWhole p → AllWhole (call lib op p)
  unfolding pool_cleanup_add
  call-AllWhole (take align n size) p s w = pool_of-AllWhole _ (palloc-WholeBy align p n size w)
  call-AllWhole (take_aligned size alignment) p s w =
      pool_of-AllWhole _ (pmemalign-WholeBy lib is clean p size alignment s.0 w)
  call-AllWhole (give q) p s w = freed_pool-AllWhole p _ w (pfree-WholeFreed p q w)
  call-AllWhole (add_cleanup n size) p s w =
      pool_of-AllWhole _
        (register_cleanup-WholeBy n size _ (palloc-WholeBy true p n sizeof_cleanup w))
  call-AllWhole reset p s w = Resets-AllWhole p _ (reset_pool-Resets p w)

  -- With a C library as the manual pages promise it whose failing `posix_memalign` leaves NULL behind,
  -- on a pool that is well formed with its large allocations: no sequence of calls of `ngx_palloc`,
  -- `ngx_pnalloc`, `ngx_pmemalign` for sizes other than 0, `ngx_pfree`, `ngx_pool_cleanup_add` and
  -- `ngx_reset_pool`, whatever addresses are freed, passes `free` an address that is not live, and the
  -- pool is as well formed after it: its blocks and its large allocations are live, and none of them is
  -- another's memory.
  pub call_all-AllWhole :
      (ops : List Operation) (p : Pool) → AllSized ops → IsWhole p → AllWhole (call_all lib ops p)
  unfolding call_all
  call_all-AllWhole [] p s w = w
  call_all-AllWhole (op ∷ ops) p s w =
      go (call lib op p) (call-AllWhole op p (first op s) w)
        (λ p' w'. call_all-AllWhole ops p' (rest op s) w')
    where
      first : (op : Operation) → AllSized (op ∷ ops) → AllSized (op ∷ [])
      first (take_aligned size alignment) (s, _) = (s, tt)
      first _ s = tt

      rest : (op : Operation) → AllSized (op ∷ ops) → AllSized ops
      rest (take_aligned size alignment) (_, s) = s
      rest _ s = s

      go :
          (r : Option Pool)
          → AllWhole r
          → ((p' : Pool) → IsWhole p' → AllWhole (call_all lib ops p'))
          → AllWhole (elim r [ none ↦ none | some p' ↦ call_all lib ops p' ])
      go none w next = w
      go (some p') w next = next p' w
