-- ===== src/Slab/Tests.antt =====
-- src/core/ngx_slab.c: runs of the functions, and the theorems at inputs that meet their hypotheses.
use nginx_inside_out.Prelude.{ℕ, ◌<◌, ◌≡◌, refl, arith}
use nginx_inside_out.Slab.{Zone, no_page, no_stat, sizes_init, slab_init}
use nginx_inside_out.Slab.Layout.{IsZone, IsLaidOut, slab_init-IsLaidOut}
use nginx_inside_out.Slab.Pages.{alloc_pages}
use nginx_inside_out.Slab.Alloc.{Stack, endless, alloc_locked}
use nginx_inside_out.Slab.Chunks.{alloc_locked-endless}
use nginx_inside_out.Slab.Drained.{OnlyPage, alloc_pages-OnlyPage}

-- a zone of 16 pages
abbrev zone : Zone
zone = record {
  addr = 4096;
  min_size = 0;
  min_shift = 3;
  pages = 0;
  last = 0;
  stats = 0;
  pfree = 0;
  start = 0;
  end = 69632;
  log_ctx = 0;
  zero_byte = 0;
  log_nomem = 0;
  headers = λ a. no_page;
  stat = λ a. no_stat;
}

zone-IsZone : IsZone zone
zone-IsZone = record { shift = omega arith; low = omega arith; room = omega arith }

zone-pages : ◌≡◌ {A = ℕ} (slab_init zone).pfree 15
unfolding slab_init
zone-pages = refl

zone-start : ◌≡◌ {A = ℕ} (slab_init zone).start 8192
unfolding slab_init
zone-start = refl

zone-min_size : (slab_init zone).min_size < 1024
unfolding slab_init
zone-min_size = omega arith

exact_shift : ◌≡◌ {A = ℕ} (sizes_init 4096).exact_shift 6
unfolding sizes_init
exact_shift = refl

slab_init-IsLaidOut_example : IsLaidOut zone (slab_init zone)
slab_init-IsLaidOut_example = slab_init-IsLaidOut zone zone-IsZone

alloc_pages-OnlyPage_example : OnlyPage 3 (slab_init zone) (alloc_pages 4 (slab_init zone) 1)
alloc_pages-OnlyPage_example = alloc_pages-OnlyPage zone 3 zone-IsZone (omega (arith, zone-pages))

-- what the variables happen to hold
abbrev stack : Stack
stack = record { slot = 4; p = 1; page = 0 }

alloc_locked-endless_example : alloc_locked 100 stack (slab_init zone) 1024 ≡ endless
alloc_locked-endless_example =
    alloc_locked-endless 100 stack (slab_init zone) 1024 (omega arith) (omega arith) zone-min_size
