-- ===== src/Pool/Grow.antt =====
-- src/core/ngx_palloc.c, the steps of ngx_palloc_large and ngx_pmemalign: new memory, its entry, and giving
-- it back.
use nginx_inside_out.Prelude.{
  ℕ, ◌+◌, ◌%◌, ◌^◌, ◌≤◌, ◌≡◌, ◌≢◌, inl, inr, refl, sym, ◌∙◌, subst, false, Bool, List, [], ◌∷◌,
  Option, none, some, Bool-cases, arith, ltb, ◌==◌,
}
use nginx_inside_out.Pool.State.{
  Block, Large, Heap, Pool, Libc, IsLibc, IsFresh, null, sizeof_data, release, ngx_free,
}
use nginx_inside_out.Pool.Small.{block_size, palloc_small}
use nginx_inside_out.Pool.Large.{reuse_entry, with_heap, give_back}
use nginx_inside_out.Pool.Chain.{AllLive}
use nginx_inside_out.Pool.Ends.{NotHeld}
use nginx_inside_out.Pool.Wf.{IsPool, SmallResult, palloc_small-Result}
use nginx_inside_out.Pool.Whole.{
  NoBlockAt, NotListed, IsOwn, AllOwn, IsWhole, IsHeld-other, IsLive-IsHeld, IsFresh-NotHeld,
  IsDropped, Drops, release-Drops, AllOwn-dropped, AllLive-dropped,
}
use nginx_inside_out.Pool.Keep.{KeptBy, AllOwn-moved, fresh-Distinct, palloc_small-IsKept}

-- What an operation leaves: a well-formed pool. A fault leaves none.
abbrev pub WholeBy : Option (ℕ × Pool) → Type 0
WholeBy none = ⊥
WholeBy (some (m, p')) = IsWhole p'

-- The heap with a new chunk: the pool is as well formed, and the chunk belongs to nothing.
AllLive-more :
    (bs : List Block) (m size : ℕ) (h : Heap)
    → AllLive bs h
    → AllLive bs (record { base = m; size = size } ∷ h)
AllLive-more [] m size h l = tt
AllLive-more (b ∷ bs) m size h (l, ls) = (inr l, AllLive-more bs m size h ls)

NoBlockAt-absent :
    (q : ℕ) (bs : List Block) (h : Heap) → AllLive bs h → NotHeld q h → NoBlockAt q bs
NoBlockAt-absent q [] h l n = tt
NoBlockAt-absent q (b ∷ bs) h (l, ls) n =
    (λ e. IsHeld-other b.addr q h (IsLive-IsHeld b h l) n (sym e), NoBlockAt-absent q bs h ls n)

NotListed-absent :
    (q : ℕ) (ls : List Large) (bs : List Block) (h : Heap)
    → q ≢ null
    → AllOwn ls bs h
    → NotHeld q h
    → NotListed q ls
NotListed-absent q [] bs h pos o n = tt
NotListed-absent q (l ∷ ls) bs h pos (inl empty, o) n =
    (λ e. pos (sym e ∙ empty), NotListed-absent q ls bs h pos o n)
NotListed-absent q (l ∷ ls) bs h pos (inr (held, nb, nl), o) n =
    (λ e. IsHeld-other l.alloc q h held n (sym e), NotListed-absent q ls bs h pos o n)

with_heap-IsPool : (p : Pool) (h : Heap) → IsPool p → AllLive p.blocks h → IsPool (with_heap p h)
with_heap-IsPool p h v live = record {
  blocks = v.blocks;
  apart = v.apart;
  live = live;
  current = v.current;
  limit = v.limit;
}

pub fresh-IsWhole :
    (p : Pool) (m size : ℕ)
    → IsWhole p
    → IsFresh m size p.heap
    → IsWhole (with_heap p (record { base = m; size = size } ∷ p.heap))
fresh-IsWhole p m size w f = record {
  pool = with_heap-IsPool p _ w.pool (AllLive-more p.blocks m size p.heap w.pool.live);
  distinct = fresh-Distinct m size p.heap f w.distinct;
  large = AllOwn-moved p.large p.blocks p.blocks p.heap _ (λ q held nb. (inr held, nb)) w.large;
}

pub fresh-IsOwn :
    (p : Pool) (m size : ℕ)
    → IsWhole p
    → m ≢ null
    → IsFresh m size p.heap
    → IsOwn m p.large p.blocks (record { base = m; size = size } ∷ p.heap)
fresh-IsOwn p m size w pos f =
    let absent = IsFresh-NotHeld m size p.heap f in
    (
      inl refl,
      NoBlockAt-absent m p.blocks p.heap w.pool.live absent,
      NotListed-absent m p.large p.blocks p.heap pos w.large absent,
    )

-- Giving memory back that is no block and no entry's.
pub dropped-IsWhole :
    (p : Pool) (q : ℕ) (h : Heap)
    → IsWhole p
    → NoBlockAt q p.blocks
    → NotListed q p.large
    → IsDropped q p.heap h
    → IsWhole (with_heap p h)
dropped-IsWhole p q h w nb nl d = record {
  pool = with_heap-IsPool p h w.pool (AllLive-dropped q p.blocks p.heap h d nb w.pool.live);
  distinct = d.distinct;
  large = AllOwn-dropped q p.large p.blocks p.heap h d nl w.large;
}

pub give_back-WholeBy :
    (p : Pool) (q : ℕ)
    → IsWhole p
    → q ≢ null
    → IsOwn q p.large p.blocks p.heap
    → WholeBy (give_back q p)
unfolding ngx_free
give_back-WholeBy p q w pos (held, nb, nl) =
    let ne : (q == null) ≡ false = ground arith in
    rw (give_back, ngx_free, ne) (go (release q p.heap) (release-Drops q p.heap w.distinct held))
  where
    go :
        (r : Option Heap)
        → Drops q p.heap r
        → WholeBy (elim r [ none ↦ none | some h ↦ some (null, with_heap p h) ])
    go none d = d
    go (some h) d = dropped-IsWhole p q h w nb nl d

-- An entry that is reused for new memory.
abbrev pub Reuses : (q : ℕ) → List Large → List Block → Heap → Option (List Large) → Type 0
Reuses q ls bs h none = Unit {0}
Reuses q ls bs h (some ls') = AllOwn ls' bs h × ((r : ℕ) → r ≢ q → NotListed r ls → NotListed r ls')

pub reuse_entry-Reuses :
    (n q : ℕ) (ls : List Large) (bs : List Block) (h : Heap)
    → AllOwn ls bs h
    → IsOwn q ls bs h
    → Reuses q ls bs h (reuse_entry n q ls)
unfolding reuse_entry
reuse_entry-Reuses n q [] bs h o own = tt
reuse_entry-Reuses n q (l ∷ ls) bs h (mine, o) (held, nb, (ne, nl)) =
    elim (Bool-cases (l.alloc == null)) [
      | inl e ↦
          rw e ((inr (held, nb, nl), o), λ r other (_, rest). (λ same. other (sym same), rest))
      | inr e ↦ elim (Bool-cases (ltb 3 n)) [
        | inl late ↦ rw (e, late) tt
        | inr early ↦
            rw (e, early)
              (behind (reuse_entry ((n + 1) % 2 ^ 64) q ls)
                (reuse_entry-Reuses ((n + 1) % 2 ^ 64) q ls bs h o (held, nb, nl)))
      ]
    ]
  where
    behind :
        (r : Option (List Large))
        → Reuses q ls bs h r
        → Reuses q (l ∷ ls) bs h (elim r [ none ↦ none | some ls' ↦ some (l ∷ ls') ])
    behind none x = tt
    behind (some ls') (o', keep) = (
      (
        elim mine [
          | inl empty ↦ inl empty
          | inr (held', nb', nl') ↦ inr (held', nb', keep l.alloc ne nl')
        ],
        o',
      ),
      λ r other (first, rest). (first, keep r other rest),
    )

-- Small allocations keep the whole invariant, and memory that is not listed.
pub record IsNext (p p' : Pool) : Type 0 where
  pub whole : IsWhole p'
  pub own : (ls : List Large) → AllOwn ls p.blocks p.heap → AllOwn ls p'.blocks p'.heap
  pub large : p'.large ≡ p.large

abbrev pub NextBy : Pool → ℕ × Pool → Type 0
NextBy p (m, p') = IsNext p p'

module _ (lib : Libc) (is : IsLibc lib) (clean : lib.garbage ≡ null) where
  pub palloc_small-IsNext :
      (p : Pool) (size : ℕ) (align : Bool)
      → IsWhole p
      → size + sizeof_data ≤ block_size p.blocks
      → NextBy p (palloc_small lib p size align)
  palloc_small-IsNext p size align w fits =
      go (palloc_small lib p size align)
        (palloc_small-IsKept lib is clean p size align w.pool w.distinct)
        (palloc_small-Result lib is clean p size w.pool fits align)
    where
      go : (r : ℕ × Pool) → KeptBy p r → SmallResult p size align r → NextBy p r
      go (m, p') k result = record {
        whole = record {
          pool = elim result [
            | inl (_, same) ↦ subst IsPool (sym same) w.pool
            | inr given ↦ given.pool
          ];
          distinct = k.distinct;
          large = subst (λ ls. AllOwn ls p'.blocks p'.heap) (sym k.large) (k.own p.large w.large);
        };
        own = k.own;
        large = k.large;
      }
