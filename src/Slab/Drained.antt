-- ===== src/Slab/Drained.antt =====
-- src/core/ngx_slab.c: the first pages taken from the free list behind ngx_slab_init.
use nginx_inside_out.Prelude.{
  ℕ, suc, ◌+◌, ◌<◌, ◌≡◌, refl, ap, sym, subst, true, false, Option, none, some, arith, ltb, leb,
  ◌==◌, if◌then◌else◌,
}
use nginx_inside_out.Slab.{Zone, free_of, sub, slab_init}
use nginx_inside_out.Slab.Layout.{IsZone, slab_init-IsLaidOut}
use nginx_inside_out.Slab.Pages.{
  Taken, taken, no_return, faulted, is_header, split_run, mark, alloc_loop, alloc_pages, page_addr,
}
use nginx_inside_out.Slab.FreeList.{slab_init-IsAllFree}
use nginx_inside_out.Slab.Split.{IsReady, AllSplit, split_run-AllSplit}

-- The page at `start` is taken and counted, and a further page is not to be had, whatever is counted.
abbrev pub OnlyPage : (rounds : ℕ) → Zone → Taken → Type 0
OnlyPage rounds z (taken page r) =
    (page ≡ z.pages)
    × (page_addr r page ≡ z.start)
    × (r.pfree + 1 ≡ z.pfree)
    × (alloc_pages (suc rounds) r 1 ≡ no_return r)
OnlyPage rounds z _ = ⊥

pub alloc_pages-ready :
    (z : Zone) (rounds : ℕ)
    → IsReady z
    → 1 < z.pfree
    → OnlyPage rounds z (alloc_pages (suc rounds) z 1)
unfolding alloc_loop
alloc_pages-ready z rounds ok two =
    let not_free : (z.pages == free_of z) ≡ false = ground (arith, ok.apart) in
    let inside : is_header z z.pages ≡ true = ground (arith, ok.last) in
    let enough : leb 1 z.pfree ≡ true = ground arith in
    let longer : ltb 1 z.pfree ≡ true = ground arith in
    subst (λ page. OnlyPage rounds z (alloc_loop (suc rounds) page 1 z))
      (sym (ap (λ h. h.next) ok.free.list))
      (rw (alloc_loop, inside, not_free, ok.free.run, enough, longer)
        (go (split_run z.pages 1 z) (split_run-AllSplit z ok two)))
  where
    go :
        (o : Option Zone)
        → AllSplit z o
        → OnlyPage rounds z (elim o [
          | none ↦ faulted
          | some z' ↦
              let z'' = mark z.pages 1 z' in
              if sub 1 1 == 0
              then taken z.pages z''
              else alloc_loop rounds (z''.headers z.pages).next (sub 1 1) z''
        ])
    go none split = absurd split
    go (some z') split =
        let along = split.along in
        let not_first : (free_of z == z.pages) ≡ false = ground (arith, ok.apart) in
        let ends : (free_of z == free_of z) ≡ true = ground arith in
        let counted : sub z.pfree 1 + 1 ≡ z.pfree = omega (arith, ok.last, ok.low) in
        (
          refl,
          rw (along.pages, along.start) (omega arith),
          rw along.pfree counted,
          rw (along.addr, not_first, split.next, ends) refl,
        )

pub slab_init-IsReady : (z : Zone) → IsZone z → IsReady (slab_init z)
slab_init-IsReady z ok =
    let laid = slab_init-IsLaidOut z ok in
    record {
      free = slab_init-IsAllFree z ok;
      apart = omega (arith, laid.same_end, laid.stats, laid.pages);
      last = laid.last;
      low = omega (arith, laid.last, laid.enough, laid.headers, laid.end, laid.same_end, ok.low);
    }

-- In a zone that `ngx_slab_init` has laid out with two pages or more, `ngx_slab_alloc_pages` gives out
-- the page at `start` and counts one page less, and then, although at least one page is still counted
-- as free, does not find it: the next call reaches the end of the function without a `return`.
pub alloc_pages-OnlyPage :
    (z : Zone) (rounds : ℕ)
    → IsZone z
    → 1 < (slab_init z).pfree
    → OnlyPage rounds (slab_init z) (alloc_pages (suc rounds) (slab_init z) 1)
alloc_pages-OnlyPage z rounds ok two =
    alloc_pages-ready (slab_init z) rounds (slab_init-IsReady z ok) two
