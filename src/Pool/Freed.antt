-- ===== src/Pool/Freed.antt =====
-- src/core/ngx_palloc.c, ngx_pfree: it keeps the pool well formed with its large allocations.
use nginx_inside_out.Prelude.{
  ℕ, ◌≡◌, ◌≢◌, ◌⊎◌, inl, inr, refl, sym, subst, List, [], ◌∷◌, Option, none, some, Bool-cases,
  arith, ◌==◌, map,
}
use nginx_inside_out.Pool.State.{Block, Large, Heap, Pool, null, release, ngx_free}
use nginx_inside_out.Pool.Large.{with_heap, Freed, ok, declined, fault, empty_entry, without, pfree}
use nginx_inside_out.Pool.Whole.{
  NotListed, IsOwn, AllOwn, IsWhole, with_cleanup-IsWhole, IsDropped, Drops, release-Drops,
}
use nginx_inside_out.Pool.Grow.{dropped-IsWhole}
use nginx_inside_out.Pool.Entries.{with_large-IsWhole, Empties, empty_entry-Empties}

-- ngx_pfree of NULL finds an empty entry, if any.
abbrev Stays : List Large → List Block → Heap → Option (List Large) → Type 0
Stays ls bs h none = Unit {0}
Stays ls bs h (some ls') = AllOwn ls' bs h × ((r : ℕ) → r ≢ null → NotListed r ls → NotListed r ls')

empty_entry-Stays :
    (ls : List Large) (bs : List Block) (h : Heap)
    → AllOwn ls bs h
    → Stays ls bs h (empty_entry null ls)
unfolding empty_entry
empty_entry-Stays [] bs h o = tt
empty_entry-Stays (l ∷ ls) bs h (mine, o) = elim (Bool-cases (null == l.alloc)) [
  | inl e ↦ rw e ((inl refl, o), λ r other (_, rest). (λ e. other (sym e), rest))
  | inr e ↦ rw e (behind (empty_entry null ls) (empty_entry-Stays ls bs h o) (ground arith))
]
  where
    behind :
        (r : Option (List Large))
        → Stays ls bs h r
        → l.alloc ≢ null
        → Stays (l ∷ ls) bs h (elim r [ none ↦ none | some ls' ↦ some (l ∷ ls') ])
    behind none x ne = tt
    behind (some ls') (o', keep) ne =
        ((kept mine, o'), λ r other (first, rest). (first, keep r other rest))
      where
        kept : (l.alloc ≡ null) ⊎ IsOwn l.alloc ls bs h → (l.alloc ≡ null) ⊎ IsOwn l.alloc ls' bs h
        kept (inl empty) = inl empty
        kept (inr (held, nb, nl)) = inr (held, nb, keep l.alloc ne nl)

-- What ngx_pfree leaves where it frees: a well-formed pool.
abbrev pub WholeFreed : Freed → Type 0
WholeFreed (ok p) = IsWhole p
WholeFreed declined = Unit {0}
WholeFreed fault = ⊥

pub pfree-WholeFreed : (p : Pool) (q : ℕ) → IsWhole p → WholeFreed (pfree p q)
unfolding pfree ngx_free
pfree-WholeFreed p q w = elim (Bool-cases (q == null)) [
  | inl e ↦
      let nothing : q ≡ null = ground arith in
      rw nothing
        (idle (empty_entry null p.large) (empty_entry-Stays p.large p.blocks p.heap w.large))
  | inr e ↦
      given (rw (ngx_free, e) refl) (empty_entry q p.large)
        (empty_entry-Empties q p.large p.blocks p.heap (ground arith) w.large)
]
  where
    idle :
        (r : Option (List Large))
        → Stays p.large p.blocks p.heap r
        → WholeFreed (elim r [
          | none ↦ declined
          | some large ↦
              ok (record p { large = large; cleanup = map (without null) p.cleanup; heap = p.heap })
        ])
    idle none x = tt
    idle (some ls) x =
        with_cleanup-IsWhole (map (without null) p.cleanup) (record p { large = ls })
          (with_large-IsWhole p ls w x.0)

    freed :
        (ls : List Large) (r : Option Heap)
        → IsWhole (record p { large = ls })
        → ((h : Heap) → IsDropped q p.heap h → IsWhole (with_heap (record p { large = ls }) h))
        → Drops q p.heap r
        → WholeFreed (elim r [
          | none ↦ fault
          | some heap ↦
              ok (record p { large = ls; cleanup = map (without q) p.cleanup; heap = heap })
        ])
    freed ls none more next d = d
    freed ls (some h) more next d =
        with_cleanup-IsWhole (map (without q) p.cleanup) (with_heap (record p { large = ls }) h)
          (next h d)

    given :
        ngx_free q p.heap ≡ release q p.heap
        → (r : Option (List Large)) → Empties q p.large p.blocks p.heap r
        → WholeFreed (elim r [
          | none ↦ declined
          | some large ↦ elim (ngx_free q p.heap) [
            | none ↦ fault
            | some heap ↦
                ok (record p { large = large; cleanup = map (without q) p.cleanup; heap = heap })
          ]
        ])
    given e none x = tt
    given e (some ls) (o, nl, held, nb, keep) =
        let more = with_large-IsWhole p ls w o in
        freed ls (ngx_free q p.heap) more
          (λ h d. dropped-IsWhole (record p { large = ls }) q h more nb nl d)
          (subst (Drops q p.heap) (sym e) (release-Drops q p.heap w.distinct held))
