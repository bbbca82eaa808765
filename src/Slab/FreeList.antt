-- ===== src/Slab/FreeList.antt =====
-- src/core/ngx_slab.c: the free list and the slots behind ngx_slab_init.
use nginx_inside_out.Prelude.{
  ℕ, zero, suc, ◌+◌, ◌-◌, ◌*◌, ◌/◌, ◌<◌, ◌≡◌, refl, true, false, arith, ◌==◌,
}
use nginx_inside_out.Slab.{
  Page, Zone, pagesize, pagesize_shift, sizeof_page, sizeof_stat, slab_slots, free_of, no_page, put,
  sub, init_slots, zeroed, slab_init,
}
use nginx_inside_out.Slab.Layout.{sub-lem, IsZone}

init_slots-below :
    (n slot a : ℕ) (store : ℕ → Page) → a < slot → init_slots n slot store a ≡ store a
unfolding init_slots
init_slots-below zero slot a store h = refl
init_slots-below (suc n) slot a store h =
    let other : (a == slot) ≡ false = ground arith in
    rw
      (
        init_slots-below n (slot + sizeof_page) a
            (put slot (record { slab = 0; next = slot; prev = 0 }) store) (omega arith),
        other,
      )
      refl

-- Each slot is a ring of its own.
init_slots-ring :
    (n slot i : ℕ) (store : ℕ → Page)
    → i < n
    → init_slots n slot store (slot + i * sizeof_page)
      ≡ record { slab = 0; next = slot + i * sizeof_page; prev = 0 }
unfolding init_slots
init_slots-ring zero slot i store h = absurd (omega arith)
init_slots-ring (suc n) slot zero store h =
    let here : slot + 0 * sizeof_page ≡ slot = omega arith in
    let same : (slot == slot) ≡ true = ground arith in
    rw
      (
        here,
        init_slots-below n (slot + sizeof_page) slot
            (put slot (record { slab = 0; next = slot; prev = 0 }) store) (omega arith),
        same,
      )
      refl
init_slots-ring (suc n) slot (suc i) store h =
    let next : slot + suc i * sizeof_page ≡ slot + sizeof_page + i * sizeof_page = omega arith in
    rw
      (
        next,
        init_slots-ring n (slot + sizeof_page) i
            (put slot (record { slab = 0; next = slot; prev = 0 }) store) (omega arith),
      )
      refl

zeroed-below :
    (n p a : ℕ) (store : ℕ → Page) → a < p → zeroed n sizeof_page p no_page store a ≡ store a
unfolding zeroed
zeroed-below zero p a store h = refl
zeroed-below (suc n) p a store h =
    let other : (a == p) ≡ false = ground arith in
    rw (zeroed-below n (p + sizeof_page) a (put p no_page store) (omega arith), other) refl

-- What the headers say where all pages are free: each slot is a ring of its own, and the free list has
-- one run, that of all pages.
pub record IsAllFree (z : Zone) : Type 0 where
  pub slots :
      (i : ℕ)
      → i < pagesize_shift - z.min_shift
      → z.headers (slab_slots z.addr + i * sizeof_page)
        ≡ record { slab = 0; next = slab_slots z.addr + i * sizeof_page; prev = 0 }
  pub list : z.headers (free_of z) ≡ record { slab = 0; next = z.pages; prev = 0 }
  pub run : z.headers z.pages ≡ record { slab = z.pfree; next = free_of z; prev = free_of z }

-- For a zone that can be laid out, `ngx_slab_init` makes each slot a ring of its own and the free list
-- one run of all pages.
pub slab_init-IsAllFree : (z : Zone) → IsZone z → IsAllFree (slab_init z)
unfolding slab_init
slab_init-IsAllFree z ok =
    let free_apart : (free_of z == (slab_init z).pages) ≡ false = ground (arith, ok.room) in
    let same : (free_of z == free_of z) ≡ true = ground arith in
    let first : ((slab_init z).pages == (slab_init z).pages) ≡ true = ground arith in
    record { slots = slot; list = rw (free_apart, same) refl; run = rw first refl }
  where
    slots : ℕ
    slots = slab_slots z.addr

    n : ℕ
    n = sub pagesize_shift z.min_shift

    p : ℕ
    p = slots + n * sizeof_page + n * sizeof_stat

    k : ℕ
    k = sub (sub z.end slots) (n * (sizeof_page + sizeof_stat)) / (pagesize + sizeof_page)

    count : n ≡ pagesize_shift - z.min_shift
    count = sub-lem pagesize_shift z.min_shift ok.shift (omega arith)

    slot :
        (i : ℕ)
        → i < pagesize_shift - z.min_shift
        → (slab_init z).headers (slots + i * sizeof_page)
          ≡ record { slab = 0; next = slots + i * sizeof_page; prev = 0 }
    slot i h =
        let below : slots + i * sizeof_page < p = omega (arith, count) in
        let not_p : (slots + i * sizeof_page == p) ≡ false = ground arith in
        let not_free : (slots + i * sizeof_page == free_of z) ≡ false = ground arith in
        rw
          (
            slab_init,
            not_p,
            not_free,
            zeroed-below k p (slots + i * sizeof_page) (init_slots n slots z.headers) below,
            init_slots-ring n slots i z.headers (omega (arith, count)),
          )
          refl
