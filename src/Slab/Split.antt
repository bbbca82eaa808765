-- ===== src/Slab/Split.antt =====
-- src/core/ngx_slab.c, ngx_slab_alloc_pages: what taking the first page off a longer run writes.
use nginx_inside_out.Prelude.{
  ℕ, ◌+◌, ◌-◌, ◌*◌, ◌^◌, ◌<◌, ◌≡◌, refl, ◌∙◌, true, false, Option, none, some, arith, ◌==◌,
}
use nginx_inside_out.Slab.{Page, Zone, sizeof_page, free_of, sub}
use nginx_inside_out.Slab.Pages.{is_header, element, then_set, split_run}
use nginx_inside_out.Slab.FreeList.{IsAllFree}

-- a zone that has been laid out, all of it free
pub record IsReady (z : Zone) : Type 0 where
  pub free : IsAllFree z
  pub apart : free_of z < z.pages
  pub last : z.last ≡ z.pages + z.pfree * sizeof_page
  pub low : z.last < 2 ^ 63

-- A zone that differs in its headers alone, and not in that of its first page.
pub record IsAlong (z z' : Zone) : Type 0 where
  pub addr : z'.addr ≡ z.addr
  pub pages : z'.pages ≡ z.pages
  pub last : z'.last ≡ z.last
  pub start : z'.start ≡ z.start
  pub pfree : z'.pfree ≡ z.pfree
  pub page : z'.headers z.pages ≡ z.headers z.pages

abbrev pub AllAlong : Zone → Option Zone → Type 0
AllAlong z none = ⊥
AllAlong z (some z') = IsAlong z z'

same_header : (z z' : Zone) (a : ℕ) → IsAlong z z' → is_header z' a ≡ is_header z a
same_header z z' a along = rw (along.addr, along.pages, along.last) refl

then_set-IsAlong :
    (z : Zone) (o : Option Zone) (at : Zone → ℕ) (f : Zone → Page → Page)
    → AllAlong z o
    → ((z' : Zone) → IsAlong z z' → (is_header z (at z') ≡ true) × ((z.pages == at z') ≡ false))
    → AllAlong z (then_set o at f)
then_set-IsAlong z none at f along ok = absurd along
then_set-IsAlong z (some z') at f along ok =
    let target = ok z' along in
    let header : is_header z' (at z') ≡ true = rw (same_header z z' (at z') along) target.0 in
    rw header (record {
      addr = along.addr;
      pages = along.pages;
      last = along.last;
      start = along.start;
      pfree = along.pfree;
      page = rw target.1 along.page;
    })

-- What taking the first page off a longer run leaves: the free list is empty.
pub record IsSplit (z z' : Zone) : Type 0 where
  pub along : IsAlong z z'
  pub next : (z'.headers (free_of z)).next ≡ free_of z

abbrev pub AllSplit : Zone → Option Zone → Type 0
AllSplit z none = ⊥
AllSplit z (some z') = IsSplit z z'

pub split_run-AllSplit : (z : Zone) → IsReady z → 1 < z.pfree → AllSplit z (split_run z.pages 1 z)
unfolding split_run
split_run-AllSplit z ok two = finish written written-AllAlong
  where
    rest : element z.pages 1 ≡ z.pages + sizeof_page
    rest = omega (arith, ok.last, ok.low)

    end : element z.pages (sub z.pfree 1) ≡ z.pages + (z.pfree - 1) * sizeof_page
    end = omega (arith, ok.last, ok.low)

    at_rest : (is_header z (element z.pages 1) ≡ true) × ((z.pages == element z.pages 1) ≡ false)
    at_rest = rw rest (ground (arith, ok.last), ground arith)

    at_end :
        (z' : Zone)
        → IsAlong z z'
        → (is_header z (element z.pages (sub (z'.headers z.pages).slab 1)) ≡ true)
          × ((z.pages == element z.pages (sub (z'.headers z.pages).slab 1)) ≡ false)
    at_end z' along = rw (along.page, ok.free.run, end) (ground (arith, ok.last), ground arith)

    none_done : IsAlong z z
    none_done = record {
      addr = refl;
      pages = refl;
      last = refl;
      start = refl;
      pfree = refl;
      page = refl;
    }

    to_rest : (Zone → Page → Page) → Option Zone → Option Zone
    to_rest f o = then_set o (λ z'. element z.pages 1) f

    written : Option Zone
    written =
        to_rest (λ z' h. record h { prev = (z'.headers z.pages).prev })
          (to_rest (λ z' h. record h { next = (z'.headers z.pages).next })
            (to_rest (λ z' h. record h { slab = sub (z'.headers z.pages).slab 1 })
              (then_set (some z) (λ z'. element z.pages (sub (z'.headers z.pages).slab 1))
                (λ z' h. record h { prev = element z.pages 1 }))))

    to_rest-AllAlong :
        (f : Zone → Page → Page) (o : Option Zone) → AllAlong z o → AllAlong z (to_rest f o)
    to_rest-AllAlong f o along =
        then_set-IsAlong z o (λ z'. element z.pages 1) f along (λ z' a. at_rest)

    written-AllAlong : AllAlong z written
    written-AllAlong = to_rest-AllAlong _ _ (
        to_rest-AllAlong _ _ (
          to_rest-AllAlong _ _ (
            then_set-IsAlong z (some z) (λ z'. element z.pages (sub (z'.headers z.pages).slab 1))
              (λ z' h. record h { prev = element z.pages 1 }) none_done at_end)))

    finish :
        (o : Option Zone)
        → AllAlong z o
        → AllSplit z (
            then_set
              (then_set o
                (λ z'. (z'.headers z.pages).prev)
                (λ z' h. record h { next = (z'.headers z.pages).next }))
              (λ z'. (z'.headers z.pages).next)
              (λ z' h. record h { prev = (z'.headers z.pages).prev }))
    finish none along = absurd along
    finish (some z') along =
        let run : z'.headers z.pages
            ≡ record { slab = z.pfree; next = free_of z; prev = free_of z } =
          along.page ∙ ok.free.run in
        let inside : is_header z' (free_of z) ≡ true =
          rw (same_header z z' (free_of z) along) (ground arith) in
        let not_free : (z.pages == free_of z) ≡ false = ground (arith, ok.apart) in
        let same : (free_of z == free_of z) ≡ true = ground arith in
        rw (run, inside, not_free, run, inside)
          (record {
            along = record {
              addr = along.addr;
              pages = along.pages;
              last = along.last;
              start = along.start;
              pfree = along.pfree;
              page = rw not_free along.page;
            };
            next = rw same refl;
          })
