-- ===== src/Pool/Chain.antt =====
-- src/core/ngx_palloc.c, ngx_palloc_block: the counting of failures leaves the blocks as they are,
-- and the new block lies apart from them.
use nginx_inside_out.Prelude.{
  ℕ, zero, suc, ◌+◌, ◌≤◌, ◌<◌, ◌≡◌, ◌⊎◌, inl, inr, refl, List, [], ◌∷◌, ◌++◌, arith, ltb,
  if◌then◌else◌, length,
}
use nginx_inside_out.Pool.State.{Block, Heap, IsFresh}
use nginx_inside_out.Pool.Small.{count_failures, count_failures_from}
use nginx_inside_out.Pool.Blocks.{IsBlock, AllBlocks, ApartFrom, AllApart, Used}

-- A block is one of the live chunks.
abbrev pub IsLive : Block → Heap → Type 0
IsLive b [] = ⊥
IsLive b (c ∷ h) = ((c.base ≡ b.addr) × (c.base + c.size ≡ b.end)) ⊎ IsLive b h

abbrev pub AllLive : List Block → Heap → Type 0
AllLive [] h = Unit {0}
AllLive (b ∷ bs) h = IsLive b h × AllLive bs h

-- The same blocks, but for their counters.
pub data SameBlocks : List Block → List Block → Type 0 where
  nil : SameBlocks [] []
  cons :
      {b : Block} {bs bs' : List Block} (f : ℕ)
      → SameBlocks bs bs'
      → SameBlocks (b ∷ bs) (record b { failed = f } ∷ bs')

SameBlocks-refl : (bs : List Block) → SameBlocks bs bs
SameBlocks-refl [] = nil
SameBlocks-refl (b ∷ bs) = cons b.failed (SameBlocks-refl bs)

count_failures-SameBlocks :
    (i current : ℕ) (bs : List Block) → SameBlocks bs (count_failures i current bs).1
unfolding count_failures
count_failures-SameBlocks i current [] = nil
count_failures-SameBlocks i current (b ∷ []) = SameBlocks-refl (b ∷ [])
count_failures-SameBlocks i current (b ∷ c ∷ bs) =
    cons _ (count_failures-SameBlocks (i + 1) (if ltb 4 b.failed then i + 1 else current) (c ∷ bs))

pub count_failures_from-SameBlocks :
    (skip i current : ℕ) (bs : List Block) → SameBlocks bs (count_failures_from skip i current bs).1
unfolding count_failures_from
count_failures_from-SameBlocks zero i current bs = count_failures-SameBlocks i current bs
count_failures_from-SameBlocks (suc skip) i current [] = nil
count_failures_from-SameBlocks (suc skip) i current (b ∷ bs) =
    cons b.failed (count_failures_from-SameBlocks skip (i + 1) current bs)

-- `current` stays an index into the chain.
count_failures-lt :
    (i current n : ℕ) (bs : List Block)
    → current < n
    → i + length bs ≤ n
    → (count_failures i current bs).0 < n
unfolding count_failures
count_failures-lt i current n [] h k = h
count_failures-lt i current n (b ∷ []) h k = h
count_failures-lt i current n (b ∷ c ∷ bs) h k =
    count_failures-lt (i + 1) (if ltb 4 b.failed then i + 1 else current) n (c ∷ bs) (ground arith)
      (omega arith)

pub count_failures_from-lt :
    (skip i current n : ℕ) (bs : List Block)
    → current < n
    → i + length bs ≤ n
    → (count_failures_from skip i current bs).0 < n
unfolding count_failures_from
count_failures_from-lt zero i current n bs h k = count_failures-lt i current n bs h k
count_failures_from-lt (suc skip) i current n [] h k = h
count_failures_from-lt (suc skip) i current n (b ∷ bs) h k =
    count_failures_from-lt skip (i + 1) current n bs h (omega arith)

pub SameBlocks-AllBlocks : {bs bs' : List Block} → SameBlocks bs bs' → AllBlocks bs → AllBlocks bs'
SameBlocks-AllBlocks nil h = tt
SameBlocks-AllBlocks (cons f s) (v, vs) = (omega arith, SameBlocks-AllBlocks s vs)

SameBlocks-ApartFrom :
    (b : Block) {bs bs' : List Block} → SameBlocks bs bs' → ApartFrom b bs → ApartFrom b bs'
SameBlocks-ApartFrom b nil h = tt
SameBlocks-ApartFrom b (cons f s) (x, ap) = (x, SameBlocks-ApartFrom b s ap)

pub SameBlocks-AllApart : {bs bs' : List Block} → SameBlocks bs bs' → AllApart bs → AllApart bs'
SameBlocks-AllApart nil h = tt
SameBlocks-AllApart (cons {b} f s) (x, ap) = (SameBlocks-ApartFrom b s x, SameBlocks-AllApart s ap)

pub SameBlocks-AllLive :
    (h : Heap) {bs bs' : List Block} → SameBlocks bs bs' → AllLive bs h → AllLive bs' h
SameBlocks-AllLive h nil v = tt
SameBlocks-AllLive h (cons f s) (v, vs) = (v, SameBlocks-AllLive h s vs)

pub SameBlocks-Used : {bs bs' : List Block} → SameBlocks bs bs' → (a : ℕ) → Used bs a → Used bs' a
SameBlocks-Used nil a u = absurd u
SameBlocks-Used (cons f s) a (inl u) = inl u
SameBlocks-Used (cons f s) a (inr u) = inr (SameBlocks-Used s a u)

pub length-SameBlocks : {bs bs' : List Block} → SameBlocks bs bs' → length bs' ≡ length bs
length-SameBlocks nil = refl
length-SameBlocks (cons f s) = omega (arith, length-SameBlocks s)

-- Blocks put together.
module _ (c : Block) where
  pub AllBlocks-snoc : (bs : List Block) → AllBlocks bs → IsBlock c → AllBlocks (bs ++ c ∷ [])
  AllBlocks-snoc [] vs v = (v, tt)
  AllBlocks-snoc (b ∷ bs) (w, vs) v = (w, AllBlocks-snoc bs vs v)

  ApartFrom-snoc :
      (b : Block) (bs : List Block)
      → ApartFrom b bs
      → (b.end ≤ c.addr) ⊎ (c.end ≤ b.addr)
      → ApartFrom b (bs ++ c ∷ [])
  ApartFrom-snoc b [] ap x = (x, tt)
  ApartFrom-snoc b (d ∷ bs) (y, ap) x = (y, ApartFrom-snoc b bs ap x)

  -- A block made of fresh memory lies apart from a live one.
  apart_of_live :
      (b : Block) (size : ℕ) (h : Heap)
      → c.end ≡ c.addr + size
      → IsFresh c.addr size h
      → IsLive b h
      → (b.end ≤ c.addr) ⊎ (c.end ≤ b.addr)
  apart_of_live b size [] e f v = absurd v
  apart_of_live b size (d ∷ h) e (f, fs) (inl l) = ground arith
  apart_of_live b size (d ∷ h) e (f, fs) (inr l) = apart_of_live b size h e fs l

  pub AllApart-snoc :
      (bs : List Block) (size : ℕ) (h : Heap)
      → c.end ≡ c.addr + size
      → IsFresh c.addr size h
      → AllLive bs h
      → AllApart bs
      → AllApart (bs ++ c ∷ [])
  AllApart-snoc [] size h e f l ap = (tt, tt)
  AllApart-snoc (b ∷ bs) size h e f (l, ls) (x, ap) =
      (ApartFrom-snoc b bs x (apart_of_live b size h e f l), AllApart-snoc bs size h e f ls ap)

  pub AllLive-snoc :
      (bs : List Block) (h : Heap) (size : ℕ)
      → c.addr + size ≡ c.end
      → AllLive bs h
      → AllLive (bs ++ c ∷ []) (record { base = c.addr; size = size } ∷ h)
  AllLive-snoc [] h size e l = (inl (refl, e), tt)
  AllLive-snoc (b ∷ bs) h size e (l, ls) = (inr l, AllLive-snoc bs h size e ls)

  pub Used-snoc : (bs : List Block) (a : ℕ) → Used bs a → Used (bs ++ c ∷ []) a
  Used-snoc (b ∷ bs) a (inl u) = inl u
  Used-snoc (b ∷ bs) a (inr u) = inr (Used-snoc bs a u)
  Used-snoc [] a u = absurd u

  pub Used-last : (bs : List Block) (a : ℕ) → (c.addr ≤ a) × (a < c.last) → Used (bs ++ c ∷ []) a
  Used-last [] a u = inl u
  Used-last (b ∷ bs) a u = inr (Used-last bs a u)

  -- No live block has given out an address of fresh memory.
  pub not-Used_of_fresh :
      (bs : List Block) (size : ℕ) (h : Heap)
      → c.end ≡ c.addr + size
      → IsFresh c.addr size h
      → AllLive bs h
      → AllBlocks bs
      → (a : ℕ) → c.addr ≤ a
      → a < c.end
      → ¬ Used bs a
  not-Used_of_fresh [] size h e f l v a p q u = u
  not-Used_of_fresh (b ∷ bs) size h e f (l, ls) (v, vs) a p q (inl u) =
      let x = apart_of_live b size h e f l in omega (arith, x)
  not-Used_of_fresh (b ∷ bs) size h e f (l, ls) (v, vs) a p q (inr u) =
      not-Used_of_fresh bs size h e f ls vs a p q u
