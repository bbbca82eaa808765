-- ===== src/Array/Destroy.antt =====
-- src/core/ngx_array.c: ngx_array_destroy takes back what ngx_array_create took.
use nginx_inside_out.Prelude.{
  ℕ, ◌+◌, ◌-◌, ◌*◌, ◌≤◌, ◌≡◌, refl, true, false, List, ◌∷◌, Option, none, some, ltb, leb, ◌==◌,
  arith,
}
use nginx_inside_out.Pool.State.{Block, Pool, Libc, null, align_ptr, distance}
use nginx_inside_out.Pool.Small.{serve, serve_from, palloc_small}
use nginx_inside_out.Pool.Large.{palloc}
use nginx_inside_out.Pool.Blocks.{IsBlock}
use nginx_inside_out.Array.{
  Array, sizeof_array, mul_size, set_last, array_init, array_create, array_destroy,
}

-- The pool whose main block is `b`, and where allocations start with it.
abbrev pub with_main : Block → List Block → Pool → Pool
with_main b bs p = record p { blocks = b ∷ bs; current = 0 }

abbrev pub taken : ℕ → Block → Block
taken v b = record b { last = v }

serve-room :
    (b : Block) (bs : List Block) (size : ℕ)
    → IsBlock b
    → align_ptr b.last + size ≤ b.end
    → serve true size (b ∷ bs) ≡ some (align_ptr b.last, taken (align_ptr b.last + size) b ∷ bs)
unfolding serve
serve-room b bs size v room =
    let fits : leb size (distance b.end (align_ptr b.last)) ≡ true = ground (arith, v) in
    rw fits refl

-- An aligned allocation of at most `max` bytes from a main block with room for it.
palloc-room :
    (lib : Libc) (b : Block) (bs : List Block) (p : Pool) (n size : ℕ)
    → size ≤ p.max
    → IsBlock b
    → align_ptr b.last + size ≤ b.end
    → palloc lib true (with_main b bs p) n size
      ≡ some (align_ptr b.last, with_main (taken (align_ptr b.last + size) b) bs p)
unfolding palloc palloc_small serve_from
palloc-room lib b bs p n size small v room =
    let in_max : leb size p.max ≡ true = ground arith in
    rw (in_max, palloc_small, serve_from, serve-room b bs size v room) refl

-- Destroying what was created leaves the pool with its free part from `m` on.
abbrev pub Restores : Pool → (m : ℕ) → Option (Option (ℕ × Array) × Pool) → Type 0
Restores p m none = ⊥
Restores p m (some (none, p')) = ⊥
Restores p m (some (some (addr, a), p')) = (addr ≡ m) × (array_destroy addr a p' ≡ set_last m p)

abbrev pub fresh_array : (elts n size : ℕ) → Array
fresh_array elts n size = record { elts = elts; nelts = 0; size = size; nalloc = n }

array_init-room :
    (lib : Libc) (b : Block) (bs : List Block) (p : Pool) (garbage n size : ℕ)
    → IsBlock b
    → n * size ≤ p.max
    → align_ptr b.last + n * size ≤ b.end
    → array_init lib (with_main b bs p) garbage n size
      ≡ some (
        true,
        fresh_array (align_ptr b.last) n size,
        with_main (taken (align_ptr b.last + n * size) b) bs p,
      )
unfolding array_init
array_init-room lib b bs p garbage n size v small room =
    let bytes : mul_size n size ≡ n * size = omega (arith, v) in
    let nonnull : ltb 0 (align_ptr b.last) ≡ true = ground (arith, v) in
    rw (array_init, bytes, palloc-room lib b bs p garbage (n * size) small v room, nonnull) refl

array_create-room :
    (lib : Libc) (b : Block) (bs : List Block) (p : Pool) (garbage n size : ℕ)
    → IsBlock b
    → sizeof_array ≤ p.max
    → n * size ≤ p.max
    → align_ptr b.last + sizeof_array + n * size ≤ b.end
    → array_create lib (with_main b bs p) garbage n size
      ≡ some (
        some (align_ptr b.last, fresh_array (align_ptr b.last + sizeof_array) n size),
        with_main (taken (align_ptr b.last + sizeof_array + n * size) b) bs p,
      )
unfolding array_create
array_create-room lib b bs p garbage n size v small small_n room =
    let m = align_ptr b.last in
    let elts : align_ptr (m + sizeof_array) ≡ m + sizeof_array = omega arith in
    let ne : (m == null) ≡ false = ground (arith, v) in
    let behind_b : IsBlock (taken (m + sizeof_array) b) = record {
      nonnull = v.nonnull;
      base = v.base;
      low = omega (arith, v);
      high = omega arith;
      ends = v.ends;
      top = v.top;
      header = v.header;
    } in
    rw
      (
        array_create,
        palloc-room lib b bs p garbage sizeof_array small v (omega arith),
        ne,
        array_init-room lib (taken (m + sizeof_array) b) bs p garbage n size behind_b small_n
            (omega arith),
        elts,
      )
      refl

-- Where the main block is well formed and current and has room for the struct and its elements, and
-- neither is larger than `max`, creating an array succeeds and destroying it then gives both back:
-- but for alignment the pool is as it was.
pub array_destroy-create :
    (lib : Libc) (b : Block) (bs : List Block) (p : Pool) (garbage n size : ℕ)
    → IsBlock b
    → sizeof_array ≤ p.max
    → n * size ≤ p.max
    → align_ptr b.last + sizeof_array + n * size ≤ b.end
    → Restores
        (with_main b bs p)
        (align_ptr b.last)
        (array_create lib (with_main b bs p) garbage n size)
unfolding array_destroy
array_destroy-create lib b bs p garbage n size v small small_n room =
    rw (array_create-room lib b bs p garbage n size v small small_n room) (refl, back)
  where
    m : ℕ
    m = align_ptr b.last

    bytes : mul_size size n ≡ n * size
    bytes = omega (arith, v)

    last : (m + sizeof_array + n * size == m + sizeof_array + n * size) ≡ true
    last = ground arith

    back :
        array_destroy m
          (fresh_array (m + sizeof_array) n size)
          (with_main (taken (m + sizeof_array + n * size) b) bs p)
        ≡ set_last m (with_main b bs p)
    back =
        let front : m + sizeof_array + n * size - n * size ≡ m + sizeof_array = omega arith in
        let same : (m + sizeof_array == m + sizeof_array) ≡ true = ground arith in
        rw (bytes, last, front, same) refl
