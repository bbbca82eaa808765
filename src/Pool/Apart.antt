-- ===== src/Pool/Apart.antt =====
-- src/core/ngx_palloc.c: the memory that a sequence of small allocations gives out.
use nginx_inside_out.Prelude.{
  ℕ, ◌+◌, ◌≤◌, ◌<◌, ◌≡◌, ◌⊎◌, inl, inr, refl, sym, subst, Bool, List, [], ◌∷◌, arith,
}
use nginx_inside_out.Pool.State.{Pool, Libc, IsLibc, null}
use nginx_inside_out.Pool.Small.{palloc_small}
use nginx_inside_out.Pool.Blocks.{Used}
use nginx_inside_out.Pool.Wf.{IsPool, SmallResult, palloc_small-Result}

-- Small allocations one after the other, and the ranges that they return.
abbrev pub allocate_each : Libc → Bool → Pool → (sizes : List ℕ) → List (ℕ × ℕ)
allocate_each lib align p [] = []
allocate_each lib align p (size ∷ sizes) =
    let (m, p') = palloc_small lib p size align in (m, size) ∷ allocate_each lib align p' sizes

-- No address is in both ranges.
abbrev pub NoneCommon : ℕ × ℕ → ℕ × ℕ → Type 0
NoneCommon (m, size) (n, width) = (a : ℕ) → m ≤ a → a < m + size → n ≤ a → a < n + width → ⊥

-- The range shares no address with any of the others that is not NULL.
abbrev pub ApartFromAll : ℕ × ℕ → List (ℕ × ℕ) → Type 0
ApartFromAll r [] = Unit {0}
ApartFromAll r (t ∷ ts) = ((t.0 ≡ null) ⊎ NoneCommon r t) × ApartFromAll r ts

abbrev pub AllApartRanges : List (ℕ × ℕ) → Type 0
AllApartRanges [] = Unit {0}
AllApartRanges (r ∷ rs) = ((r.0 ≡ null) ⊎ ApartFromAll r rs) × AllApartRanges rs

abbrev pub AllSmall : (max : ℕ) → List ℕ → Type 0
AllSmall max [] = Unit {0}
AllSmall max (size ∷ sizes) = (size ≤ max) × AllSmall max sizes

-- What matters of a small allocation to those after it.
record Kept (p : Pool) (size m : ℕ) (p' : Pool) : Type 0 where
  pub pool : IsPool p'
  pub max : p'.max ≡ p.max
  pub used : (a : ℕ) → Used p.blocks a → Used p'.blocks a
  pub range : (m ≡ null) ⊎ ((a : ℕ) → m ≤ a → a < m + size → (¬ Used p.blocks a) × Used p'.blocks a)

SmallResult-Kept :
    (p : Pool) (size : ℕ) (align : Bool) (r : ℕ × Pool)
    → IsPool p
    → SmallResult p size align r
    → Kept p size r.0 r.1
SmallResult-Kept p size align (m, p') v (inl (e, same)) =
    subst (λ q. Kept p size m q) (sym same)
      (record { pool = v; max = refl; used = λ a u. u; range = inl e })
SmallResult-Kept p size align (m, p') v (inr g) = record {
  pool = g.pool;
  max = g.max_kept;
  used = g.kept;
  range = inr g.fresh;
}

module _ (lib : Libc) (ok : IsLibc lib) (clean : lib.garbage ≡ null) (align : Bool) where
  kept :
      (p : Pool) (size : ℕ)
      → IsPool p
      → size ≤ p.max
      → let r = palloc_small lib p size align in Kept p size r.0 r.1
  kept p size v small =
      SmallResult-Kept p size align (palloc_small lib p size align) v
        (palloc_small-Result lib ok clean p size v (omega (arith, v.limit)) align)

  used-ApartFromAll :
      (p : Pool) (sizes : List ℕ) (m size : ℕ)
      → IsPool p
      → AllSmall p.max sizes
      → ((a : ℕ) → m ≤ a → a < m + size → Used p.blocks a)
      → ApartFromAll (m, size) (allocate_each lib align p sizes)
  used-ApartFromAll p [] m size v small u = tt
  used-ApartFromAll p (width ∷ sizes) m size v (le, small) u =
      let r = palloc_small lib p width align in
      let k : Kept p width r.0 r.1 = kept p width v le in
      (
        common r.1 k.range,
        used-ApartFromAll r.1 sizes m size k.pool (subst (λ x. AllSmall x sizes) (sym k.max) small)
            (λ a low high. k.used a (u a low high)),
      )
    where
      common :
          {n : ℕ} (q : Pool)
          → (n ≡ null) ⊎ ((a : ℕ) → n ≤ a → a < n + width → (¬ Used p.blocks a) × Used q.blocks a)
          → (n ≡ null) ⊎ NoneCommon (m, size) (n, width)
      common q (inl e) = inl e
      common q (inr f) = inr (λ a low high low' high'. (f a low' high').0 (u a low high))

  -- On a well-formed pool, with a C library as the manual pages promise it whose failing
  -- `posix_memalign` leaves NULL behind, the ranges that a sequence of allocations of at most `max`
  -- bytes returns have no address in common, but for those that are NULL.
  pub allocate_each-AllApartRanges :
      (p : Pool) (sizes : List ℕ)
      → IsPool p
      → AllSmall p.max sizes
      → AllApartRanges (allocate_each lib align p sizes)
  allocate_each-AllApartRanges p [] v small = tt
  allocate_each-AllApartRanges p (size ∷ sizes) v (le, small) =
      let r = palloc_small lib p size align in
      let k : Kept p size r.0 r.1 = kept p size v le in
      let small' : AllSmall r.1.max sizes = subst (λ x. AllSmall x sizes) (sym k.max) small in
      (
        elim k.range [
          | inl e ↦ inl e
          | inr f ↦
              inr (
                used-ApartFromAll r.1 sizes r.0 size k.pool small' (λ a low high. (f a low high).1))
        ],
        allocate_each-AllApartRanges r.1 sizes k.pool small',
      )
