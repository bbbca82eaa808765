-- ===== src/Array/Slots.antt =====
-- src/core/ngx_array.c, ngx_array_push: the memory of an array that grows.
use nginx_inside_out.Prelude.{
  ℕ, suc, ◌+◌, ◌*◌, ◌^◌, ◌≤◌, ◌<◌, ◌≡◌, ◌⊎◌, ap, ◌∙◌, inl, inr, refl, true, false, ◌&&◌, Option,
  none, some, List, [], ◌∷◌, ltb, leb, ◌==◌, arith, Bool-cases, length,
}
use native.Mathlib.Nat.{mul-le-mul_left, mul-le-mul_right, mul_comm, mul_left_comm}
use nginx_inside_out.Pool.State.{Block, Pool, Libc, IsLibc, null}
use nginx_inside_out.Pool.Large.{Memory, palloc}
use nginx_inside_out.Pool.Small.{block_size, palloc_small}
use nginx_inside_out.Pool.Blocks.{Used, Bumped, here}
use nginx_inside_out.Pool.Wf.{IsPool, Given, served-Given, SmallResult, palloc_small-Result}
use nginx_inside_out.Array.{
  Array, add_size, mul_size, memcpy, main_last, main_end, set_main_last, set_last, Pushed, push_end,
  moved, array_push,
}
use nginx_inside_out.Array.Growth.{SameContents, memcpy-same}

-- The bytes of the array's elements.
abbrev pub room : Array → ℕ
room a = a.size * a.nalloc

abbrev pub IsIn : (from bytes x : ℕ) → Type 0
IsIn from bytes x = (from ≤ x) × (x < from + bytes)

-- The array's memory is memory that the pool has given out.
abbrev pub IsBacked : Array → Pool → Type 0
IsBacked a p = (x : ℕ) → IsIn a.elts (room a) x → Used p.blocks x

-- What a push makes of an array and its pool. The slot is the one behind the elements and lies inside
-- of the array's memory, which the pool has given out to it: no byte of it, but the old ones, was in use
-- before.
pub record IsPush (a : Array) (p : Pool) (mem : Memory) (r : Pushed) : Type 0 where
  pub pool : IsPool r.pool
  pub kept : (x : ℕ) → Used p.blocks x → Used r.pool.blocks x
  pub backed : IsBacked r.array r.pool
  pub own :
      (x : ℕ) → IsIn r.array.elts (room r.array) x → IsIn a.elts (room a) x ⊎ (¬ Used p.blocks x)
  pub slot : r.elt ≡ r.array.elts + a.size * a.nelts
  pub inside : a.size * a.nelts + a.size ≤ room r.array
  pub fields : (r.array.nelts ≡ a.nelts) × (r.array.size ≡ a.size)
  pub contents : SameContents (a.size * a.nelts) a mem r
  pub unwritten : (x : ℕ) → Used p.blocks x → r.mem x ≡ mem x

-- The main block with more of it given out.
main-Bumped :
    (size : ℕ) (bs : List Block)
    → 0 < length bs
    → main_last bs + size ≤ main_end bs
    → Bumped size (main_last bs) bs (set_main_last (main_last bs + size) bs)
main-Bumped size [] some_block fits = absurd (omega arith)
main-Bumped size (b ∷ bs) some_block fits = here (omega arith) fits

slot-fits : (size n m : ℕ) → n < m → size * n + size ≤ size * m
slot-fits size n m h =
    let e : size * n + size ≡ (n + 1) * size = omega arith in
    let c : size * m ≡ m * size = mul_comm size m in rw (e, c) (mul-le-mul_right size (omega arith))

block_size-small : (bs : List Block) → block_size bs < 2 ^ 64
block_size-small [] = omega arith
block_size-small (b ∷ bs) = omega arith

-- NULL and all as it was, or a push.
abbrev pub Pushes : Array → Pool → Memory → Option Pushed → Type 0
Pushes a p mem none = ⊥
Pushes a p mem (some r) =
    ((r.elt ≡ null) × (r.array ≡ a) × (r.pool ≡ p) × (r.mem ≡ mem)) ⊎ IsPush a p mem r

module _ (a : Array) (p : Pool) (mem : Memory) (v : IsPool p) (backed : IsBacked a p)
    (small : 2 * room a ≤ p.max) where
  bytes-small : 2 * room a < 2 ^ 64
  bytes-small = omega (arith, small, v.limit, block_size-small p.blocks)

  elements-small : a.nelts ≤ a.nalloc → mul_size a.size a.nelts ≡ a.size * a.nelts
  elements-small h = omega (arith, bytes-small, mul-le-mul_left a.size h)

  -- There is room behind the elements.
  room-IsPush : a.nelts < a.nalloc → IsPush a p mem (push_end a p mem)
  room-IsPush h = record {
    pool = v;
    kept = λ x u. u;
    backed = backed;
    own = λ x i. inl i;
    slot = ap (λ k. a.elts + k) (elements-small (omega arith));
    inside = slot-fits a.size a.nelts a.nalloc h;
    fields = (refl, refl);
    contents = λ i q. refl;
    unwritten = λ x u. refl;
  }

  -- The array ends where the main block is used up, and there is room behind it in the block.
  grown-IsPush :
      a.nelts ≡ a.nalloc
      → a.nalloc < 2 ^ 62
      → a.elts + room a ≡ main_last p.blocks
      → main_last p.blocks + a.size ≤ main_end p.blocks
      → IsPush a p mem (
          push_end
            (record a { nalloc = add_size a.nalloc 1 })
            (set_last (main_last p.blocks + a.size) p)
            mem)
  grown-IsPush full word ends fits =
      let given =
        served-Given p a.size false v (main-Bumped a.size p.blocks (omega (arith, v.current)) fits)
          tt in
      let one_more : add_size a.nalloc 1 ≡ suc a.nalloc = omega arith in
      let longer : a.size * add_size a.nalloc 1 ≡ room a + a.size =
        ap (λ k. a.size * k) one_more ∙ omega arith in
      record {
        pool = given.pool;
        kept = given.kept;
        backed = λ x (low, high). elim (Bool-cases (ltb x (main_last p.blocks))) [
          | inl old ↦ given.kept x (backed x (low, ground arith))
          | inr new ↦ (given.fresh x (ground arith) (omega (arith, longer, ends, high))).1
        ];
        own = λ x (low, high). elim (Bool-cases (ltb x (main_last p.blocks))) [
          | inl old ↦ inl (low, ground arith)
          | inr new ↦ inr (given.fresh x (ground arith) (omega (arith, longer, ends, high))).0
        ];
        slot = ap (λ k. a.elts + k) (elements-small (omega arith));
        inside = slot-fits a.size a.nelts (add_size a.nalloc 1) (omega (arith, full, one_more));
        fields = (refl, refl);
        contents = λ i q. refl;
        unwritten = λ x u. refl;
      }

  -- The array moves to memory of twice its size.
  moved-IsPush :
      (new : ℕ) (q : Pool)
      → a.nelts ≡ a.nalloc
      → 0 < a.nalloc
      → a.nalloc < 2 ^ 62
      → Given p (2 * room a) true new q
      → IsPush a p mem (
          push_end
            (record a { elts = new; nalloc = mul_size 2 a.nalloc })
            q
            (memcpy new a.elts (room a) mem))
  moved-IsPush new q full pos word given =
      let doubled : mul_size 2 a.nalloc ≡ 2 * a.nalloc = omega arith in
      let larger : a.size * mul_size 2 a.nalloc ≡ 2 * room a =
        ap (λ k. a.size * k) doubled ∙ mul_left_comm a.size 2 a.nalloc in
      let filled : a.size * a.nelts ≡ room a = ap (λ k. a.size * k) full in
      record {
        pool = given.pool;
        kept = given.kept;
        backed = λ x (low, high). (given.fresh x low (omega (arith, larger, high))).1;
        own = λ x (low, high). inr (given.fresh x low (omega (arith, larger, high))).0;
        slot = ap (λ k. new + k) (elements-small (omega arith));
        inside = slot-fits a.size a.nelts (mul_size 2 a.nalloc) (omega (arith, full, doubled, pos));
        fields = (refl, refl);
        contents = λ i h. memcpy-same new a.elts (room a) i mem (omega (arith, filled, h));
        unwritten = λ x u. elim (Bool-cases (leb new x && ltb x (new + room a))) [
          | inl inside ↦ absurd ((given.fresh x (ground arith) (ground arith)).0 u)
          | inr outside ↦ rw outside refl
        ];
      }

  moved-Pushes :
      (r : ℕ × Pool)
      → a.nelts ≡ a.nalloc
      → 0 < a.nalloc
      → a.nalloc < 2 ^ 62
      → SmallResult p (2 * room a) true r
      → Pushes a p mem (moved (room a) (mul_size 2 a.nalloc) a mem push_end (some r))
  moved-Pushes (new, q) full pos word (inl (failed, same)) =
      let null_new : (new == null) ≡ true = ground arith in
      rw null_new (inl (refl, refl, same, refl))
  moved-Pushes (new, q) full pos word (inr given) =
      let some_new : (new == null) ≡ false = ground (arith, given.nonnull) in
      rw some_new (inr (moved-IsPush new q full pos word given))

  -- For an array with a capacity that is not 0, below 2^62 and no less than its length, whose memory a
  -- well-formed pool has given out and of which the double is a small allocation, with a C library as
  -- the manual pages promise it whose failing `posix_memalign` leaves NULL behind: a push comes back. It
  -- returns NULL and leaves the array, the pool and the memory as they were; or the pool is well formed
  -- again and has taken nothing back, the slot returned is the one behind the elements and lies in the
  -- array's memory, no byte of that memory was in use but for the old array, the elements have their
  -- bytes, also where they are moved, and no byte that was in use is written.
  pub array_push-Pushes :
      (lib : Libc) (garbage : ℕ)
      → IsLibc lib
      → lib.garbage ≡ null
      → a.nelts ≤ a.nalloc
      → 0 < a.nalloc
      → a.nalloc < 2 ^ 62
      → Pushes a p mem (array_push lib garbage a p mem)
  unfolding array_push palloc
  array_push-Pushes lib garbage is clean within pos word = elim (Bool-cases (a.nelts == a.nalloc)) [
    | inl full ↦
        elim (Bool-cases (
          a.elts + mul_size a.size a.nalloc == main_last p.blocks
          && leb (main_last p.blocks + a.size) (main_end p.blocks))) [
            | inl grows ↦
                rw (full, grows)
                  (inr (grown-IsPush (ground arith) word (ground (arith, exact)) (ground arith)))
            | inr moves ↦
                let served : leb (2 * room a) p.max ≡ true = ground arith in
                rw (full, moves, exact, twice, served)
                  (moved-Pushes (palloc_small lib p (2 * room a) true) (ground arith) pos word (
                    palloc_small-Result lib is clean p (2 * room a) v (omega (arith, v.limit))
                      true))
          ]
    | inr more ↦ rw more (inr (room-IsPush (ground arith)))
  ]
    where
      exact : mul_size a.size a.nalloc ≡ room a
      exact = omega (arith, bytes-small)

      twice : mul_size 2 (room a) ≡ 2 * room a
      twice = omega (arith, bytes-small)
