-- ===== src/Slab/Layout.antt =====
-- src/core/ngx_slab.c, ngx_slab_init: where the parts of a zone lie.
use nginx_inside_out.Prelude.{
  ℕ, ◌+◌, ◌-◌, ◌*◌, ◌/◌, ◌%◌, ◌^◌, ◌≤◌, ◌<◌, ◌≡◌, refl, min, ◌∙◌, inl, inr, true, arith, ltb,
  Bool-cases,
}
use nginx_inside_out.Slab.{
  Zone, pagesize, pagesize_shift, sizeof_slab_pool, sizeof_page, sizeof_stat, slab_slots, sub,
  align_page, without_excess, slab_init,
}

-- A zone that `ngx_slab_init` can lay out: the smallest chunk is no larger than a page, the memory does
-- not reach the upper half of the addresses, and a page with its header fits behind the pool, its slots
-- and their statistics.
pub record IsZone (z : Zone) : Type 0 where
  pub shift : z.min_shift ≤ pagesize_shift
  pub low : z.end < 2 ^ 63
  pub room :
      z.addr
        + sizeof_slab_pool
        + (pagesize_shift - z.min_shift) * (sizeof_page + sizeof_stat)
        + (pagesize + sizeof_page)
      ≤ z.end

-- How many pages with their headers the memory behind the statistics would hold.
abbrev pub capacity : Zone → ℕ
capacity z =
    (z.end
      - (z.addr + sizeof_slab_pool + (pagesize_shift - z.min_shift) * (sizeof_page + sizeof_stat)))
    / (pagesize + sizeof_page)

-- The parts follow each other: pool, slots, statistics, headers, pages, all of them inside of the zone;
-- pages are aligned, and all are free; at most one is lost to alignment.
pub record IsLaidOut (z r : Zone) : Type 0 where
  pub same_end : (r.addr ≡ z.addr) × (r.end ≡ z.end)
  pub stats : r.stats ≡ z.addr + sizeof_slab_pool + (pagesize_shift - z.min_shift) * sizeof_page
  pub pages : r.pages ≡ r.stats + (pagesize_shift - z.min_shift) * sizeof_stat
  pub last : r.last ≡ r.pages + r.pfree * sizeof_page
  pub headers : r.pages + capacity z * sizeof_page ≤ r.start
  pub start : r.start % pagesize ≡ 0
  pub end : r.start + r.pfree * pagesize ≤ r.end
  pub enough : (r.pfree ≤ capacity z) × (capacity z ≤ r.pfree + 1)

pub sub-lem : (a b : ℕ) → b ≤ a → a < 2 ^ 64 → sub a b ≡ a - b
sub-lem a b le lt = let e : a + (2 ^ 64 - b) ≡ (a - b) + 2 ^ 64 = omega arith in rw e (omega arith)

without_excess-min : (k q : ℕ) → k < 2 ^ 63 → q < 2 ^ 63 → without_excess k (sub k q) ≡ min k q
without_excess-min k q hk hq = elim (Bool-cases (ltb q k)) [
  | inl excess ↦
      let less : q < k = ground arith in
      let m : sub k q ≡ k - q = sub-lem k q (omega arith) (omega arith) in
      let left : sub k (k - q) ≡ q = sub-lem k (k - q) (omega arith) (omega arith) ∙ omega arith in
      let some_more : ltb 0 (k - q) ≡ true = ground arith in
      let not_negative : ltb (k - q) (2 ^ 63) ≡ true = ground arith in
      rw (m, some_more, not_negative, left) (omega arith)
  | inr none ↦ ground arith
]

-- The number of pages that is left, by what stands at the end of the memory.
pages-Fit :
    (p e k : ℕ)
    → 0 < k
    → p + k * 4120 ≤ e
    → e < 2 ^ 63
    → let start = align_page (p + k * 24) in
      let left = without_excess k (sub k (sub e start / pagesize)) in
      (start % pagesize ≡ 0)
      × (p + k * 24 ≤ start)
      × (start + left * pagesize ≤ e)
      × (left ≤ k)
      × (k ≤ left + 1)
pages-Fit p e k pos fits low =
    let start = align_page (p + k * 24) in
    let behind : sub e start ≡ e - start = sub-lem e start (omega arith) (omega arith) in
    let left : without_excess k (sub k ((e - start) / pagesize)) ≡ min k ((e - start) / pagesize) =
      without_excess-min k ((e - start) / pagesize) (omega arith) (omega arith) in
    rw (behind, left) (omega arith, omega arith, omega arith, omega arith, omega arith)

-- the pages that fit, as the code counts them
counted-capacity :
    (z : Zone)
    → IsZone z
    → sub
          (sub z.end (slab_slots z.addr))
          ((pagesize_shift - z.min_shift) * (sizeof_page + sizeof_stat))
        / (pagesize + sizeof_page)
      ≡ capacity z
counted-capacity z ok =
    let slots : sub z.end (slab_slots z.addr) ≡ z.end - slab_slots z.addr =
      sub-lem z.end (slab_slots z.addr) (omega (arith, ok.room)) (omega (arith, ok.low)) in
    let used = (pagesize_shift - z.min_shift) * (sizeof_page + sizeof_stat) in
    let rest : sub (z.end - slab_slots z.addr) used ≡ z.end - slab_slots z.addr - used =
      sub-lem (z.end - slab_slots z.addr) used (omega (arith, ok.room)) (omega (arith, ok.low)) in
    rw (slots, rest) (omega arith)

-- For a zone that can be laid out, `ngx_slab_init` puts the slots, the statistics, the headers and the
-- pages one behind the other inside of the zone, aligns the pages, and counts all but at most one of
-- the pages that the memory would hold as free.
pub slab_init-IsLaidOut : (z : Zone) → IsZone z → IsLaidOut z (slab_init z)
unfolding slab_init
slab_init-IsLaidOut z ok =
    let n = sub pagesize_shift z.min_shift in
    let slots_n : n ≡ pagesize_shift - z.min_shift =
      sub-lem pagesize_shift z.min_shift ok.shift (omega arith) in
    let p = slab_slots z.addr + n * sizeof_page + n * sizeof_stat in
    let k =
      sub (sub z.end (slab_slots z.addr)) (n * (sizeof_page + sizeof_stat))
      / (pagesize + sizeof_page) in
    let counted : k ≡ capacity z = rw slots_n (counted-capacity z ok) in
    let fit = pages-Fit p z.end k (omega (arith, ok.room)) (omega (arith, ok.room)) ok.low in
    record {
      same_end = (refl, refl);
      stats = rw slots_n refl;
      pages = rw slots_n refl;
      last = refl;
      headers = omega (arith, fit, counted);
      start = fit.0;
      end = fit.2;
      enough = (omega (arith, fit, counted), omega (arith, fit, counted));
    }
