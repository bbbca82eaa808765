-- ===== src/Slab/Chunks.antt =====
-- src/core/ngx_slab.c, ngx_slab_alloc_locked: when it does not come back.
use nginx_inside_out.Prelude.{ℕ, ◌-◌, ◌^◌, ◌<◌, ◌≤◌, ◌≡◌, refl, true, arith, ltb}
use nginx_inside_out.Slab.{Zone, sub}
use nginx_inside_out.Slab.Sizes.{class_loop-endless}
use nginx_inside_out.Slab.Layout.{sub-lem}
use nginx_inside_out.Slab.Alloc.{Stack, endless, alloc_locked}

-- For sizes of 3 and more that are above the smallest, `ngx_slab_alloc_locked` does not come back,
-- whatever the zone: no number of rounds is enough for it.
pub alloc_locked-endless :
    (rounds : ℕ) (stack : Stack) (z : Zone) (size : ℕ)
    → 3 ≤ size
    → size < 2 ^ 64
    → z.min_size < size
    → alloc_locked rounds stack z size ≡ endless
unfolding alloc_locked
alloc_locked-endless rounds stack z size h word above =
    let test : ltb z.min_size size ≡ true = ground arith in
    let less : sub size 1 ≡ size - 1 = sub-lem size 1 (omega arith) word in
    rw (alloc_locked, test, less, class_loop-endless rounds size 1 h) refl
