-- ===== src/Pool/Blocks.antt =====
-- src/core/ngx_palloc.c: what is well formed about the blocks of a pool, and what a small allocation
-- does to them.
use nginx_inside_out.Prelude.{
  ℕ, zero, suc, ◌+◌, ◌%◌, ◌^◌, ◌≤◌, ◌<◌, ◌≡◌, ◌⊎◌, inl, inr, Bool, true, false, List, [], ◌∷◌,
  Option, none, some, arith, Bool-cases,
}
use nginx_inside_out.Pool.State.{Block, sizeof_pool}
use nginx_inside_out.Pool.Small.{start, has_room, behind, serve, serve_from}

-- The free part lies in the block; the block starts at a multiple of 16, ends at one of 8, and has
-- room for an ngx_pool_t.
pub record IsBlock (b : Block) : Type 0 where
  pub nonnull : 0 < b.addr
  pub base : b.addr % 16 ≡ 0
  pub low : b.addr ≤ b.last
  pub high : b.last ≤ b.end
  pub ends : b.end % 8 ≡ 0
  pub top : b.end < 2 ^ 64
  pub header : b.addr + sizeof_pool ≤ b.end

abbrev pub AllBlocks : List Block → Type 0
AllBlocks [] = Unit {0}
AllBlocks (b ∷ bs) = IsBlock b × AllBlocks bs

-- Two blocks share no address.
abbrev pub ApartFrom : Block → List Block → Type 0
ApartFrom b [] = Unit {0}
ApartFrom b (c ∷ bs) = ((b.end ≤ c.addr) ⊎ (c.end ≤ b.addr)) × ApartFrom b bs

abbrev pub AllApart : List Block → Type 0
AllApart [] = Unit {0}
AllApart (b ∷ bs) = ApartFrom b bs × AllApart bs

-- An address that a block has given out, or that its header takes.
abbrev pub Used : List Block → ℕ → Type 0
Used [] a = ⊥
Used (b ∷ bs) a = ((b.addr ≤ a) × (a < b.last)) ⊎ Used bs a

-- The blocks after `size` bytes at `m` have been taken from the free part of one of them.
pub data Bumped (size m : ℕ) : List Block → List Block → Type 0 where
  here :
      {b : Block} {bs : List Block}
      → b.last ≤ m
      → m + size ≤ b.end
      → Bumped size m (b ∷ bs) (record b { last = m + size } ∷ bs)
  there :
      {b : Block} {bs bs' : List Block} → Bumped size m bs bs' → Bumped size m (b ∷ bs) (b ∷ bs')

-- With `align` the address is a multiple of 8.
abbrev pub IsAligned : Bool → ℕ → Type 0
IsAligned true m = m % 8 ≡ 0
IsAligned false m = Unit {0}

module _ (align : Bool) (size : ℕ) where
  start-IsAligned : (b : Block) → IsAligned align (start align b)
  start-IsAligned b = go align
    where
      go : (al : Bool) → IsAligned al (start al b)
      go true = omega arith
      go false = tt

  start_bounds : (b : Block) → IsBlock b → (b.last ≤ start align b) × (start align b ≤ b.end)
  start_bounds b v = go align
    where
      go : (al : Bool) → (b.last ≤ start al b) × (start al b ≤ b.end)
      go true = omega arith
      go false = omega arith

  has_room-le :
      (b : Block) → IsBlock b → has_room align size b ≡ true → start align b + size ≤ b.end
  has_room-le b v h = ground (arith, start_bounds b v)

  -- What `serve` returns, as a result about the blocks that it was given.
  abbrev pub Serves : List Block → Option (ℕ × List Block) → Type 0
  Serves bs none = Unit {0}
  Serves bs (some (m, bs')) = Bumped size m bs bs' × IsAligned align m

  behind-Serves :
      (b : Block) (bs : List Block) (r : Option (ℕ × List Block))
      → Serves bs r
      → Serves (b ∷ bs) (behind b r)
  behind-Serves b bs none h = tt
  behind-Serves b bs (some (m, bs')) (s, al) = (there s, al)

  serve-Serves : (bs : List Block) → AllBlocks bs → Serves bs (serve align size bs)
  unfolding serve
  serve-Serves [] v = tt
  serve-Serves (b ∷ bs) (v, vs) = elim (Bool-cases (has_room align size b)) [
    | inl room ↦ rw room (here ((start_bounds b v).0) (has_room-le b v room), start-IsAligned b)
    | inr full ↦ rw full (behind-Serves b bs (serve align size bs) (serve-Serves bs vs))
  ]

  pub serve_from-Serves :
      (i : ℕ) (bs : List Block) → AllBlocks bs → Serves bs (serve_from align size i bs)
  unfolding serve_from
  serve_from-Serves zero bs v = serve-Serves bs v
  serve_from-Serves (suc i) [] v = tt
  serve_from-Serves (suc i) (b ∷ bs) (v, vs) =
      behind-Serves b bs (serve_from align size i bs) (serve_from-Serves i bs vs)

-- Only the ends of a block matter.
pub ApartFrom-range :
    (b c : Block) (bs : List Block)
    → b.addr ≡ c.addr
    → b.end ≡ c.end
    → ApartFrom b bs
    → ApartFrom c bs
ApartFrom-range b c [] p q h = tt
ApartFrom-range b c (d ∷ bs) p q (x, h) = (omega arith, ApartFrom-range b c bs p q h)

-- An address of a block is in use by none of the blocks that lie apart from it.
not-Used_of_apart :
    (b : Block) (bs : List Block) (a : ℕ)
    → AllBlocks bs
    → ApartFrom b bs
    → b.addr ≤ a
    → a < b.end
    → ¬ Used bs a
not-Used_of_apart b [] a v ap p q u = u
not-Used_of_apart b (c ∷ bs) a (v, vs) (x, ap) p q (inl (low, high)) = omega arith
not-Used_of_apart b (c ∷ bs) a (v, vs) (x, ap) p q (inr u) = not-Used_of_apart b bs a vs ap p q u

module _ {size m : ℕ} where
  pub Bumped-AllBlocks : {bs bs' : List Block} → Bumped size m bs bs' → AllBlocks bs → AllBlocks bs'
  Bumped-AllBlocks (here low high) (v, vs) = (omega arith, vs)
  Bumped-AllBlocks (there s) (v, vs) = (v, Bumped-AllBlocks s vs)

  Bumped-ApartFrom :
      (b : Block) {bs bs' : List Block} → Bumped size m bs bs' → ApartFrom b bs → ApartFrom b bs'
  Bumped-ApartFrom b (here low high) (x, ap) = (x, ap)
  Bumped-ApartFrom b (there s) (x, ap) = (x, Bumped-ApartFrom b s ap)

  pub Bumped-AllApart : {bs bs' : List Block} → Bumped size m bs bs' → AllApart bs → AllApart bs'
  Bumped-AllApart (here low high) (x, ap) = (x, ap)
  Bumped-AllApart (there {b} s) (x, ap) = (Bumped-ApartFrom b s x, Bumped-AllApart s ap)

  -- Nothing that was in use is given back.
  pub Bumped-Used : {bs bs' : List Block} → Bumped size m bs bs' → (a : ℕ) → Used bs a → Used bs' a
  Bumped-Used (here low high) a (inl (p, q)) = inl (p, omega arith)
  Bumped-Used (here low high) a (inr u) = inr u
  Bumped-Used (there s) a (inl u) = inl u
  Bumped-Used (there s) a (inr u) = inr (Bumped-Used s a u)

  -- The bytes given out of the blocks behind `b` are none of its own.
  Bumped-outside :
      (b : Block) {bs bs' : List Block}
      → Bumped size m bs bs'
      → AllBlocks bs
      → ApartFrom b bs
      → (a : ℕ) → m ≤ a
      → a < m + size
      → (b.addr ≤ a) × (a < b.end)
      → ⊥
  Bumped-outside b (here low high) (v, vs) (x, ap) a p q (r, t) = omega arith
  Bumped-outside b (there s) (v, vs) (x, ap) a p q u = Bumped-outside b s vs ap a p q u

  -- The bytes given out were free, and are in use afterwards.
  pub Bumped-fresh :
      {bs bs' : List Block}
      → Bumped size m bs bs'
      → AllBlocks bs
      → AllApart bs
      → (a : ℕ) → m ≤ a
      → a < m + size
      → (¬ Used bs a) × Used bs' a
  Bumped-fresh (here {b} {bs} low high) (v, vs) (x, ap) a p q = (
    elim [
      | inl r ↦ omega arith
      | inr later ↦ not-Used_of_apart b bs a vs x (omega arith) (omega arith) later
    ],
    inl (omega arith),
  )
  Bumped-fresh (there {b} s) (v, vs) (x, ap) a p q =
      let (new, used) = Bumped-fresh s vs ap a p q in
      (
        elim [ inl r ↦ Bumped-outside b s vs x a p q (r.0, omega arith) | inr later ↦ new later ],
        inr used,
      )
