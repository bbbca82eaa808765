-- ===== src/Pool/Whole.antt =====
-- src/core/ngx_palloc.c: the invariant of a pool with its large allocations, and what `free` does to
-- the heap.
use nginx_inside_out.Prelude.{
  ℕ, ◌≡◌, ◌≢◌, ◌⊎◌, inl, inr, sym, ◌∙◌, false, List, [], ◌∷◌, Option, none, some, Bool-cases, arith,
  ◌==◌,
}
use nginx_inside_out.Pool.State.{Block, Large, Cleanup, Heap, Pool, IsFresh, null, release}
use nginx_inside_out.Pool.Chain.{IsLive, AllLive}
use nginx_inside_out.Pool.Total.{IsHeld}
use nginx_inside_out.Pool.Ends.{NotHeld, AllDistinct}
use nginx_inside_out.Pool.Wf.{IsPool}

-- No block stands at the address.
abbrev pub NoBlockAt : (q : ℕ) → List Block → Type 0
NoBlockAt q [] = Unit {0}
NoBlockAt q (b ∷ bs) = (b.addr ≢ q) × NoBlockAt q bs

-- No entry has the address.
abbrev pub NotListed : (q : ℕ) → List Large → Type 0
NotListed q [] = Unit {0}
NotListed q (l ∷ ls) = (l.alloc ≢ q) × NotListed q ls

-- A large allocation is live memory of its own: no block, and no other entry's.
abbrev pub IsOwn : (q : ℕ) → List Large → List Block → Heap → Type 0
IsOwn q ls bs h = IsHeld q h × NoBlockAt q bs × NotListed q ls

-- Each entry is empty or has memory of its own.
abbrev pub AllOwn : List Large → List Block → Heap → Type 0
AllOwn [] bs h = Unit {0}
AllOwn (l ∷ ls) bs h = ((l.alloc ≡ null) ⊎ IsOwn l.alloc ls bs h) × AllOwn ls bs h

-- A well-formed pool over a heap of different chunks, whose large allocations are memory of their own.
pub record IsWhole (p : Pool) : Type 0 where
  pub pool : IsPool p
  pub distinct : AllDistinct p.heap
  pub large : AllOwn p.large p.blocks p.heap

-- The cleanup entries have no part in it.
pub with_cleanup-IsWhole :
    (cs : List Cleanup) (p : Pool) → IsWhole p → IsWhole (record p { cleanup = cs })
with_cleanup-IsWhole cs p w = record {
  pool = record {
    blocks = w.pool.blocks;
    apart = w.pool.apart;
    live = w.pool.live;
    current = w.pool.current;
    limit = w.pool.limit;
  };
  distinct = w.distinct;
  large = w.large;
}

pub IsHeld-other : (q r : ℕ) (h : Heap) → IsHeld q h → NotHeld r h → r ≢ q
IsHeld-other q r [] i n = absurd i
IsHeld-other q r (c ∷ h) (inl e) (ne, n) = λ same. ne (e ∙ sym same)
IsHeld-other q r (c ∷ h) (inr i) (ne, n) = IsHeld-other q r h i n

pub IsLive-IsHeld : (b : Block) (h : Heap) → IsLive b h → IsHeld b.addr h
IsLive-IsHeld b [] l = l
IsLive-IsHeld b (c ∷ h) (inl (e, s)) = inl e
IsLive-IsHeld b (c ∷ h) (inr l) = inr (IsLive-IsHeld b h l)

pub IsFresh-NotHeld : (m size : ℕ) (h : Heap) → IsFresh m size h → NotHeld m h
IsFresh-NotHeld m size [] f = tt
IsFresh-NotHeld m size (c ∷ h) ((ne, apart), f) = (λ e. ne (sym e), IsFresh-NotHeld m size h f)

-- What `free` of a live address leaves: all else, as it was.
pub record IsDropped (p : ℕ) (h h' : Heap) : Type 0 where
  pub distinct : AllDistinct h'
  pub gone : NotHeld p h'
  pub held : (q : ℕ) → q ≢ p → IsHeld q h → IsHeld q h'
  pub absent : (q : ℕ) → NotHeld q h → NotHeld q h'
  pub live : (b : Block) → b.addr ≢ p → IsLive b h → IsLive b h'

abbrev pub Drops : (p : ℕ) → Heap → Option Heap → Type 0
Drops p h none = ⊥
Drops p h (some h') = IsDropped p h h'

pub release-Drops : (p : ℕ) (h : Heap) → AllDistinct h → IsHeld p h → Drops p h (release p h)
unfolding release
release-Drops p [] d i = i
release-Drops p (c ∷ h) (n, d) i = elim (Bool-cases (c.base == p)) [
  | inl e ↦
      let same : c.base ≡ p = ground arith in
      rw e (record {
        distinct = d;
        gone = rw⁻¹ same n;
        held = λ q ne i. elim i [ inl here ↦ absurd (ne (sym here ∙ same)) | inr there ↦ there ];
        absent = λ q (_, rest). rest;
        live =
            λ b ne i. elim i [ inl (here, s) ↦ absurd (ne (sym here ∙ same)) | inr there ↦ there ];
      })
  | inr e ↦ rw e (behind (release p h) (release-Drops p h d (rest i e)) (ground arith))
]
  where
    rest : (c.base ≡ p) ⊎ IsHeld p h → (c.base == p) ≡ false → IsHeld p h
    rest (inl q) e = absurd (ground arith)
    rest (inr j) e = j

    behind :
        (r : Option Heap)
        → Drops p h r
        → c.base ≢ p
        → Drops p (c ∷ h) (elim r [ none ↦ none | some h' ↦ some (c ∷ h') ])
    behind none x ne = x
    behind (some h') x ne = record {
      distinct = (x.absent c.base n, x.distinct);
      gone = (ne, x.gone);
      held = λ q other i. elim i [ inl here ↦ inl here | inr there ↦ inr (x.held q other there) ];
      absent = λ q (first, others). (first, x.absent q others);
      live = λ b other i. elim i [ inl here ↦ inl here | inr there ↦ inr (x.live b other there) ];
    }

pub AllOwn-dropped :
    (p : ℕ) (ls : List Large) (bs : List Block) (h h' : Heap)
    → IsDropped p h h'
    → NotListed p ls
    → AllOwn ls bs h
    → AllOwn ls bs h'
AllOwn-dropped p [] bs h h' d n o = tt
AllOwn-dropped p (l ∷ ls) bs h h' d (ne, n) (inl empty, o) =
    (inl empty, AllOwn-dropped p ls bs h h' d n o)
AllOwn-dropped p (l ∷ ls) bs h h' d (ne, n) (inr (held, nb, nl), o) =
    (inr (d.held l.alloc ne held, nb, nl), AllOwn-dropped p ls bs h h' d n o)

pub AllLive-dropped :
    (p : ℕ) (bs : List Block) (h h' : Heap)
    → IsDropped p h h'
    → NoBlockAt p bs
    → AllLive bs h
    → AllLive bs h'
AllLive-dropped p [] h h' d n l = tt
AllLive-dropped p (b ∷ bs) h h' d (ne, n) (l, ls) =
    (d.live b ne l, AllLive-dropped p bs h h' d n ls)
