-- ===== src/Pool/Memalign.antt =====
-- src/os/unix/ngx_alloc.c, ngx_memalign with NGX_HAVE_MEMALIGN in place of NGX_HAVE_POSIX_MEMALIGN.
use nginx_inside_out.Prelude.{
  ℕ, ◌≡◌, inl, inr, refl, none, some, arith, ◌∷◌, ◌==◌, if◌then◌else◌, Bool-cases,
}
use nginx_inside_out.Pool.State.{Heap, Libc, null, ngx_memalign}

-- `memalign` by the chunks that are live: an address, or NULL
abbrev pub Memalign : Type 0
Memalign = (alignment size : ℕ) → Heap → ℕ

-- ngx_memalign
unfoldable pub ngx_memalign_null : Memalign → (alignment size : ℕ) → Heap → ℕ × Heap
ngx_memalign_null memalign alignment size h =
    let p = memalign alignment size h in
    if p == null then (p, h) else (p, record { base = p; size = size } ∷ h)

-- The C library whose `posix_memalign` is `memalign`, and whose stack holds NULL.
abbrev pub as_posix : Memalign → (malloc : (size : ℕ) → Heap → ℕ) → Libc
as_posix memalign malloc = record {
  posix_memalign = λ alignment size h.
      if memalign alignment size h == null then none else some (memalign alignment size h);
  malloc = malloc;
  garbage = null;
}

-- With `memalign`, ngx_memalign is the variant with `posix_memalign` over a C library that leaves NULL
-- in the pointer where it fails: what is proved of pools for such a library holds here too.
pub ngx_memalign-ngx_memalign_null :
    (memalign : Memalign) (malloc : (size : ℕ) → Heap → ℕ) (alignment size : ℕ) (h : Heap)
    → ngx_memalign (as_posix memalign malloc) alignment size h
      ≡ ngx_memalign_null memalign alignment size h
unfolding ngx_memalign ngx_memalign_null
ngx_memalign-ngx_memalign_null memalign malloc alignment size h =
    elim (Bool-cases (memalign alignment size h == null)) [
      | inl failed ↦
          let is_null : memalign alignment size h ≡ null = ground arith in rw (failed, is_null) refl
      | inr got ↦ rw got refl
    ]
