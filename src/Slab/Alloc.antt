-- ===== src/Slab/Alloc.antt =====
-- src/core/ngx_slab.c, ngx_slab_alloc_locked, as it stands: an empty branch does nothing, and what a
-- variable holds that was never set is a parameter. Without NGX_DEBUG the calls for debug logging are
-- empty, which leaves the semicolon that line 215 lacks.
use nginx_inside_out.Prelude.{
  ℕ, ◌+◌, ◌-◌, ◌*◌, ◌/◌, ◌%◌, ◌^◌, Option, none, some, ltb, ◌==◌, if◌then◌else◌,
}
use nginx_inside_out.Pool.State.{null}
use nginx_inside_out.Slab.{
  Stat, Zone, pagesize, pagesize_shift, sizeof_page, sizeof_stat, slab_slots, put, sub, sizes_init,
}
use nginx_inside_out.Slab.Sizes.{class_loop}
use nginx_inside_out.Slab.Pages.{taken, no_return, faulted, no_fuel, alloc_pages, page_addr}

-- What `slot`, `p` and the result of ngx_slab_alloc_pages happen to hold where nothing sets them.
pub record Stack : Type 0 where
  pub slot : ℕ
  pub p : ℕ
  pub page : ℕ

-- What a call comes to: the address returned, rounds that do not suffice, or an access to memory that
-- is not the zone's.
pub data Served : Type 0 where
  served : (p : ℕ) → Zone → Served
  endless : Served
  crashed : Served

-- ngx_slab_exact_shift, as ngx_slab_sizes_init sets it
abbrev pub exact_shift : ℕ
exact_shift = (sizes_init pagesize).exact_shift

abbrev pub slot_addr : Zone → (slot : ℕ) → ℕ
slot_addr z slot = slab_slots z.addr + slot * sizeof_page

-- `pool->stats[slot]`
abbrev pub stat_addr : Zone → (slot : ℕ) → ℕ
stat_addr z slot = z.stats + slot * sizeof_stat

abbrev pub change_stat : (slot : ℕ) → (Stat → Stat) → Zone → Zone
change_stat slot f z = record z {
  stat = put (stat_addr z slot) (f (z.stat (stat_addr z slot))) z.stat;
}

abbrev pub count_request : Stat → Stat
count_request s = record s { reqs = (s.reqs + 1) % 2 ^ 64 }

abbrev pub count_used : Stat → Stat
count_used s = record s { used = (s.used + 1) % 2 ^ 64 }

abbrev pub count_total : (n : ℕ) → Stat → Stat
count_total n s = record s { total = (s.total + n) % 2 ^ 64 }

-- `shift` and `slot`; `none` where the rounds are used up
abbrev pub class_of : (rounds : ℕ) → Stack → Zone → (size : ℕ) → Option (ℕ × ℕ)
class_of rounds stack z size =
    if ltb z.min_size size
    then elim (class_loop rounds (sub size 1) 1) [
      | none ↦ none
      | some shift ↦ some (shift, sub shift z.min_shift)
    ]
    else some (z.min_size, stack.slot)

-- `page->slab = …; page->next = …; page->prev = …; slots[slot].next = page;`, with `shift` below 2^32
-- and the slot at an even address
abbrev pub link_page : (page slot shift : ℕ) → Zone → Zone
link_page page slot shift z =
    let s = slot_addr z slot in
    let headers = put page (record { slab = 2 ^ 32 + shift; next = s; prev = s + 1 }) z.headers in
    record z { headers = put s (record (headers s) { next = page }) headers }

-- the branch `shift > ngx_slab_exact_shift` behind ngx_slab_alloc_pages
abbrev pub first_chunk : (page slot shift : ℕ) → Zone → Served
first_chunk page slot shift z = served (page_addr z page) (
    change_stat slot count_used
      (change_stat slot (count_total (pagesize / 2 ^ shift)) (link_page page slot shift z)))

-- `if (page) { … }`
abbrev pub use_page : Stack → (page slot shift : ℕ) → Zone → Served
use_page stack page slot shift z =
    if page == null
    then served stack.p z
    else if ltb exact_shift shift
    then first_chunk page slot shift z
    else served stack.p z

-- from `page = ngx_slab_alloc_pages(pool, 1)` on; a pointer that was never set is none to a header
abbrev pub from_pages : (rounds : ℕ) → Stack → (slot shift : ℕ) → Zone → Served
from_pages rounds stack slot shift z = elim (alloc_pages rounds z 1) [
  | taken page z' ↦ use_page stack page slot shift z'
  | no_return z' ↦
      if stack.page == null
      then served stack.p z'
      else if ltb exact_shift shift
      then crashed
      else served stack.p z'
  | faulted ↦ crashed
  | no_fuel ↦ endless
]

-- `for (m = (uintptr_t) 1 << NGX_SLAB_MAP_SHIFT, i = 0; m & mask; m << 1, i++)`: `m` stays the bit 32
abbrev pub search_page : (rounds : ℕ) → Stack → (page slot shift : ℕ) → Zone → Served
search_page rounds stack page slot shift z =
    let mask = 2 ^ (pagesize / 2 ^ shift) - 1 in
    if mask / 2 ^ 32 % 2 == 0
    then from_pages rounds stack slot shift z
    else if (z.headers page).slab / 2 ^ 32 % 2 == 0
    then served (page_addr z page) (
        change_stat slot count_used (record z {
          headers =
              put page (record (z.headers page) { slab = (z.headers page).slab + 2 ^ 32 })
                z.headers;
        }))
    else endless

-- from `page = slots[slot].next` on
abbrev pub from_slot : (rounds : ℕ) → Stack → (slot shift : ℕ) → Zone → Served
from_slot rounds stack slot shift z =
    let page = (z.headers (slot_addr z slot)).next in
    if (z.headers page).next == page
    then from_pages rounds stack slot shift z
    else if ltb exact_shift shift
    then search_page rounds stack page slot shift z
    else from_pages rounds stack slot shift z

-- ngx_slab_alloc_locked
unfoldable pub alloc_locked : (rounds : ℕ) → Stack → Zone → (size : ℕ) → Served
unfolding class_loop
alloc_locked rounds stack z size = elim (class_of rounds stack z size) [
  | none ↦ endless
  | some (shift, slot) ↦
      if ltb slot (pagesize_shift - z.min_shift)
      then from_slot rounds stack slot shift (change_stat slot count_request z)
      else crashed
]
