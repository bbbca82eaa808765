-- ===== src/Array.antt =====
-- src/core/ngx_array.c and ngx_array.h: the dynamic array in a pool. The struct itself is a record;
-- `a->pool->d` is the first block of the pool's chain. The bytes of memory are a function.
pub mod Growth
pub mod Slots
pub mod Overrun
pub mod Destroy
mod Tests
use nginx_inside_out.Prelude.{
  ℕ, ◌+◌, ◌-◌, ◌*◌, ◌%◌, ◌^◌, Bool, true, ◌&&◌, List, [], ◌∷◌, Option, none, some, ltb, leb, ◌==◌,
  if◌then◌else◌,
}
use nginx_inside_out.Pool.State.{Block, Pool, Libc, null}
use nginx_inside_out.Pool.Large.{Memory, palloc}

-- ngx_array_t, but for `pool`
pub record Array : Type 0 where
  pub elts : ℕ
  pub nelts : ℕ
  pub size : ℕ
  pub nalloc : ℕ

abbrev pub sizeof_array : ℕ
sizeof_array = 40

-- a sum in `size_t`
abbrev pub add_size : ℕ → ℕ → ℕ
add_size a b = (a + b) % 2 ^ 64

-- a product in `size_t`
abbrev pub mul_size : ℕ → ℕ → ℕ
mul_size a b = a * b % 2 ^ 64

-- `p->d.last` and `p->d.end`
abbrev pub main_last : List Block → ℕ
main_last [] = 0
main_last (b ∷ bs) = b.last

abbrev pub main_end : List Block → ℕ
main_end [] = 0
main_end (b ∷ bs) = b.end

abbrev pub set_main_last : ℕ → List Block → List Block
set_main_last v [] = []
set_main_last v (b ∷ bs) = record b { last = v } ∷ bs

abbrev pub set_last : ℕ → Pool → Pool
set_last v p = record p { blocks = set_main_last v p.blocks }

-- ngx_memcpy
abbrev pub memcpy : (dst src n : ℕ) → Memory → Memory
memcpy dst src n mem a = if leb dst a && ltb a (dst + n) then mem (src + (a - dst)) else mem a

-- ngx_array_init: NGX_ERROR where `elts` is NULL. The outer option is a fault of the pool.
unfoldable pub array_init : Libc → Pool → (garbage n size : ℕ) → Option (Bool × Array × Pool)
array_init lib pool garbage n size = elim (palloc lib true pool garbage (mul_size n size)) [
  | none ↦ none
  | some (elts, pool') ↦
      some (ltb 0 elts, record { elts = elts; nelts = 0; size = size; nalloc = n }, pool')
]

abbrev pub created : (a : ℕ) → Option (Bool × Array × Pool) → Option (Option (ℕ × Array) × Pool)
created a none = none
created a (some (ok, array, pool)) = some (if ok then some (a, array) else none, pool)

-- ngx_array_create: the address of the struct and its fields, or NULL
unfoldable pub array_create :
    Libc → Pool → (garbage n size : ℕ) → Option (Option (ℕ × Array) × Pool)
array_create lib pool garbage n size = elim (palloc lib true pool garbage sizeof_array) [
  | none ↦ none
  | some (a, pool') ↦
      if a == null then some (none, pool') else created a (array_init lib pool' garbage n size)
]

-- ngx_array_destroy of the array whose struct is at `addr`
unfoldable pub array_destroy : (addr : ℕ) → Array → Pool → Pool
array_destroy addr a p =
    let bytes = mul_size a.size a.nalloc in
    let p1 =
      (if a.elts + bytes == main_last p.blocks
        then set_last (main_last p.blocks - bytes) p
        else p) in
    if addr + sizeof_array == main_last p1.blocks then set_last addr p1 else p1

-- What a push returns: the address (NULL if there is no memory), the array, the pool, the memory.
pub record Pushed : Type 0 where
  pub elt : ℕ
  pub array : Array
  pub pool : Pool
  pub mem : Memory

abbrev pub no_memory : Array → Pool → Memory → Pushed
no_memory a p mem = record { elt = null; array = a; pool = p; mem = mem }

-- `elt = a->elts + a->size * a->nelts; a->nelts; return elt;`: the length stays as it is.
abbrev pub push_end : Array → Pool → Memory → Pushed
push_end a p mem = record { elt = a.elts + mul_size a.size a.nelts; array = a; pool = p; mem = mem }

-- `new = ngx_palloc(…)`, the copy of `bytes` bytes and the new capacity
abbrev pub moved :
    (bytes nalloc : ℕ)
    → Array
    → Memory
    → (Array → Pool → Memory → Pushed)
    → Option (ℕ × Pool)
    → Option Pushed
moved bytes nalloc a mem finish none = none
moved bytes nalloc a mem finish (some (new, p)) =
    if new == null
    then some (no_memory a p mem)
    else some (finish (record a { elts = new; nalloc = nalloc }) p (memcpy new a.elts bytes mem))

-- ngx_array_push
unfoldable pub array_push : Libc → (garbage : ℕ) → Array → Pool → Memory → Option Pushed
array_push lib garbage a p mem =
    let bytes = mul_size a.size a.nalloc in
    let last = main_last p.blocks in
    if a.nelts == a.nalloc
    then (if a.elts + bytes == last && leb (last + a.size) (main_end p.blocks)
        then some
            (push_end (record a { nalloc = add_size a.nalloc 1 }) (set_last (last + a.size) p) mem)
        else moved bytes (mul_size 2 a.nalloc) a mem push_end
            (palloc lib true p garbage (mul_size 2 bytes)))
    else some (push_end a p mem)

-- `elt = …; a->nelts += n; return elt;`
abbrev pub push_n_end : (n : ℕ) → Array → Pool → Memory → Pushed
push_n_end n a p mem = record {
  elt = a.elts + mul_size a.size a.nelts;
  array = record a { nelts = add_size a.nelts n };
  pool = p;
  mem = mem;
}

-- ngx_array_push_n; `bytes` is the size of the `n` new elements, and stands in the test for that of
-- the array
unfoldable pub array_push_n : Libc → (garbage : ℕ) → Array → (n : ℕ) → Pool → Memory → Option Pushed
array_push_n lib garbage a n p mem =
    let bytes = mul_size n a.size in
    let last = main_last p.blocks in
    let nalloc = mul_size 2 (if leb a.nalloc n then n else a.nalloc) in
    if ltb a.nalloc (add_size a.nelts n)
    then (if a.elts + bytes == last && leb (last + a.size) (main_end p.blocks)
        then some (
            push_n_end n (record a { nalloc = add_size a.nalloc n }) (set_last (last + bytes) p)
              mem)
        else moved (mul_size a.nelts a.size) nalloc a mem (push_n_end n)
            (palloc lib true p garbage (mul_size nalloc a.size)))
    else some (push_n_end n a p mem)
