-- ===== src/PartList.antt =====
-- src/core/ngx_list.c and ngx_list.h: the list that grows by parts. `front` has the parts that `next`
-- leads through before `last`, first to last.
pub mod Append
pub mod Iterate
pub mod Pushes
mod Tests
use nginx_inside_out.Prelude.{
  ℕ, zero, suc, ◌+◌, ◌*◌, ◌%◌, ◌^◌, Bool, true, List, [], ◌∷◌, ◌++◌, Option, none, some, ltb, ◌==◌,
  if◌then◌else◌,
}
use nginx_inside_out.Pool.State.{Pool, Libc, null}
use nginx_inside_out.Pool.Large.{palloc}
use nginx_inside_out.Array.{add_size, mul_size}

-- ngx_list_part_t, with its address
pub record Part : Type 0 where
  pub addr : ℕ
  pub elts : ℕ
  pub nelts : ℕ

-- ngx_list_t, but for `pool`
pub record Parts : Type 0 where
  pub front : List Part
  pub last : Part
  pub size : ℕ
  pub nalloc : ℕ

abbrev pub sizeof_part : ℕ
sizeof_part = 24

abbrev pub sizeof_list : ℕ
sizeof_list = 56

-- `&list->part` of the list at `addr`
abbrev pub first_part : (addr : ℕ) → ℕ
first_part addr = addr + 8

abbrev pub empty_list : (addr elts n size : ℕ) → Parts
empty_list addr elts n size = record {
  front = [];
  last = record { addr = first_part addr; elts = elts; nelts = 0 };
  size = size;
  nalloc = n;
}

-- ngx_list_init of the list at `addr`; `none` in the pair is NGX_ERROR
unfoldable pub list_init : Libc → Pool → (garbage addr n size : ℕ) → Option (Option Parts × Pool)
list_init lib pool garbage addr n size = elim (palloc lib true pool garbage (mul_size n size)) [
  | none ↦ none
  | some (elts, pool') ↦
      some (if elts == null then none else some (empty_list addr elts n size), pool')
]

-- ngx_list_create; `none` in the pair is NULL
unfoldable pub list_create : Libc → Pool → (garbage n size : ℕ) → Option (Option Parts × Pool)
list_create lib pool garbage n size = elim (palloc lib true pool garbage sizeof_list) [
  | none ↦ none
  | some (addr, pool') ↦
      if addr == null then some (none, pool') else list_init lib pool' garbage addr n size
]

-- What a push returns: the address (NULL if there is no memory), the list and the pool.
pub record Pushed : Type 0 where
  pub elt : ℕ
  pub list : Parts
  pub pool : Pool

abbrev pub no_memory : Parts → Pool → Pushed
no_memory l p = record { elt = null; list = l; pool = p }

-- `elt = last->elts + l->size * last->nelts; last->nelts++;` where `part` is the last part
abbrev pub take_slot : Parts → Part → Pool → Pushed
take_slot l part p = record {
  elt = part.elts + mul_size l.size part.nelts;
  list = record l { last = record part { nelts = add_size part.nelts 1 } };
  pool = p;
}

abbrev pub new_part : (addr elts : ℕ) → Part
new_part addr elts = record { addr = addr; elts = elts; nelts = 0 }

-- `l->last->next = last; l->last = last;` once the elements of the new part at `addr` are there
abbrev pub link_part : Parts → (addr : ℕ) → Option (ℕ × Pool) → Option Pushed
link_part l addr none = none
link_part l addr (some (elts, p)) =
    if elts == null
    then some (no_memory l p)
    else some (take_slot (record l { front = l.front ++ l.last ∷ [] }) (new_part addr elts) p)

abbrev pub add_part : Libc → (garbage : ℕ) → Parts → Option (ℕ × Pool) → Option Pushed
add_part lib garbage l none = none
add_part lib garbage l (some (addr, p)) =
    if addr == null
    then some (no_memory l p)
    else link_part l addr (palloc lib true p garbage (mul_size l.nalloc l.size))

-- ngx_list_push
unfoldable pub list_push : Libc → (garbage : ℕ) → Parts → Pool → Option Pushed
list_push lib garbage l p =
    if l.last.nelts == l.nalloc
    then add_part lib garbage l (palloc lib true p garbage sizeof_part)
    else some (take_slot l l.last p)
