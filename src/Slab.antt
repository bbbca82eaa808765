-- ===== src/Slab.antt =====
-- src/core/ngx_slab.c and ngx_slab.h: the size tables and the layout of a zone. Pointers are addresses;
-- what stands at an address is a store of page headers and one of statistics, by the address of each.
pub mod Sizes
pub mod Layout
pub mod Pages
pub mod FreeList
pub mod Split
pub mod Drained
pub mod Alloc
pub mod Chunks
mod Tests
use nginx_inside_out.Prelude.{
  ℕ, zero, suc, ◌+◌, ◌-◌, ◌*◌, ◌/◌, ◌%◌, ◌^◌, ◌<◌, ◌≤◌, Acc, lt_wf, dec_lt, dite, arith, ◌&&◌, ltb,
  ◌==◌, if◌then◌else◌,
}

-- ngx_slab_page_t
pub record Page : Type 0 where
  pub slab : ℕ
  pub next : ℕ
  pub prev : ℕ

-- ngx_slab_stat_t
pub record Stat : Type 0 where
  pub total : ℕ
  pub used : ℕ
  pub reqs : ℕ
  pub fails : ℕ

-- ngx_slab_pool_t at the address `addr`, without the lock, the mutex, `data` and `addr`, which nothing here
-- touches; `headers` has the slots, the headers of pages and `free`, which is a header too.
pub record Zone : Type 0 where
  pub addr : ℕ
  pub min_size : ℕ
  pub min_shift : ℕ
  pub pages : ℕ
  pub last : ℕ
  pub stats : ℕ
  pub pfree : ℕ
  pub start : ℕ
  pub end : ℕ
  pub log_ctx : ℕ
  pub zero_byte : ℕ
  pub log_nomem : ℕ
  pub headers : ℕ → Page
  pub stat : ℕ → Stat

-- ngx_pagesize and ngx_pagesize_shift, as on Linux
abbrev pub pagesize : ℕ
pagesize = 4096

abbrev pub pagesize_shift : ℕ
pagesize_shift = 12

abbrev pub sizeof_slab_pool : ℕ
sizeof_slab_pool = 184

abbrev pub sizeof_page : ℕ
sizeof_page = 24

abbrev pub sizeof_stat : ℕ
sizeof_stat = 32

-- where `free` stands in ngx_slab_pool_t
abbrev pub offset_free : ℕ
offset_free = 48

-- where `zero` stands in it
abbrev pub offset_zero : ℕ
offset_zero = 160

-- ngx_slab_slots
abbrev pub slab_slots : (pool : ℕ) → ℕ
slab_slots pool = pool + sizeof_slab_pool

abbrev pub free_of : Zone → ℕ
free_of z = z.addr + offset_free

abbrev pub no_page : Page
no_page = record { slab = 0; next = 0; prev = 0 }

abbrev pub no_stat : Stat
no_stat = record { total = 0; used = 0; reqs = 0; fails = 0 }

abbrev pub put : {A : Type 0} → ℕ → A → (ℕ → A) → ℕ → A
put a x store b = if b == a then x else store b

-- the subtraction of two numbers of 64 bits
abbrev pub sub : (a b : ℕ) → ℕ
sub a b = (a + (2 ^ 64 - b)) % 2 ^ 64

-- `ngx_align_ptr(p, ngx_pagesize)`: clearing the low bits rounds down to a multiple.
abbrev pub align_page : ℕ → ℕ
align_page p = (p + (pagesize - 1)) / pagesize * pagesize

-- `for (n = …; n >>= 1; ngx_slab_exact_shift++)`
pub shift_loop : (n : ℕ) → Acc ◌<◌ n → (exact_shift : ℕ) → ℕ
shift_loop n (Acc.intro _ smaller) exact_shift =
    dite (dec_lt 0 (n / 2))
      (λ h. shift_loop (n / 2) (smaller (n / 2) (omega arith)) (exact_shift + 1)) (λ _. exact_shift)

-- ngx_slab_max_size, ngx_slab_exact_size and ngx_slab_exact_shift
pub record SlabSizes : Type 0 where
  pub max_size : ℕ
  pub exact_size : ℕ
  pub exact_shift : ℕ

-- ngx_slab_sizes_init, for any size of pages; `exact_shift` is 0 before the first call
unfoldable pub sizes_init : (page_size : ℕ) → SlabSizes
unfolding shift_loop lt_wf dec_lt
sizes_init page_size =
    let exact_size = page_size / (8 * 8) in
    record {
      max_size = page_size / 2;
      exact_size = exact_size;
      exact_shift = shift_loop exact_size (lt_wf.apply exact_size) 0;
    }

-- `for (i = 0; i < n; i++) { slots[i].slab = 0; slots[i].next = &slots[i]; slots[i].prev = 0; }`, from
-- the slot at `slot` on
unfoldable pub init_slots : (rounds slot : ℕ) → (ℕ → Page) → ℕ → Page
init_slots zero slot headers = headers
init_slots (suc rounds) slot headers =
    init_slots rounds (slot + sizeof_page)
      (put slot (record { slab = 0; next = slot; prev = 0 }) headers)

-- `ngx_memzero` of `count` elements of `size` bytes from `p` on
unfoldable pub zeroed : {A : Type 0} → (count size p : ℕ) (none : A) → (ℕ → A) → ℕ → A
zeroed zero size p none store = store
zeroed (suc count) size p none store = zeroed count size (p + size) none (put p none store)

-- `if (m > 0) { pages -= m; page->slab = pages; }`, where `m` is signed; the number of pages
abbrev pub without_excess : (pages m : ℕ) → ℕ
without_excess pages m = if ltb 0 m && ltb m (2 ^ 63) then sub pages m else pages

-- ngx_slab_init, on a pool whose `min_shift` and `end` are set
unfoldable pub slab_init : Zone → Zone
unfolding init_slots zeroed
slab_init z =
    let slots = slab_slots z.addr in
    let n = sub pagesize_shift z.min_shift in
    let stats = slots + n * sizeof_page in
    let p = stats + n * sizeof_stat in
    let size = sub (sub z.end slots) (n * (sizeof_page + sizeof_stat)) in
    let pages = size / (pagesize + sizeof_page) in
    let start = align_page (p + pages * sizeof_page) in
    let m = sub pages (sub z.end start / pagesize) in
    let left = without_excess pages m in
    let headers = zeroed pages sizeof_page p no_page (init_slots n slots z.headers) in
    let free = free_of z in
    record z {
      min_size = 2 ^ z.min_shift;
      stats = stats;
      stat = zeroed n sizeof_stat stats no_stat z.stat;
      pages = p;
      headers =
          put p (record { slab = left; next = free; prev = free })
            (put free (record { slab = 0; next = p; prev = 0 }) headers);
      start = start;
      last = p + left * sizeof_page;
      pfree = left;
      log_nomem = 1;
      log_ctx = z.addr + offset_zero;
      zero_byte = 0;
    }
