-- ===== src/Pool/Small.antt =====
-- src/core/ngx_palloc.c: ngx_palloc_small and ngx_palloc_block.
use nginx_inside_out.Prelude.{
  ℕ, zero, suc, ◌+◌, ◌%◌, ◌^◌, Bool, List, [], ◌∷◌, ◌++◌, Option, none, some, ltb, leb, ◌==◌,
  if◌then◌else◌,
}
use nginx_inside_out.Pool.State.{
  Block, Pool, Heap, Libc, null, sizeof_data, pool_alignment, align_ptr, distance, ngx_memalign,
}

-- where the next allocation of a block would start
abbrev pub start : (align : Bool) → Block → ℕ
start align b = if align then align_ptr b.last else b.last

-- `(size_t) (p->d.end - m) >= size`
abbrev pub has_room : (align : Bool) (size : ℕ) → Block → Bool
has_room align size b = leb size (distance b.end (start align b))

abbrev pub behind : Block → Option (ℕ × List Block) → Option (ℕ × List Block)
behind b none = none
behind b (some (m, bs)) = some (m, b ∷ bs)

-- `do { … p = p->d.next; } while (p);` over the blocks from `current` on: the address returned, and
-- the blocks with the chosen one moved on.
unfoldable pub serve : (align : Bool) (size : ℕ) → List Block → Option (ℕ × List Block)
serve align size [] = none
serve align size (b ∷ bs) =
    if has_room align size b
    then some (start align b, record b { last = start align b + size } ∷ bs)
    else behind b (serve align size bs)

-- the same from the block with index `i` on
unfoldable pub serve_from : (align : Bool) (size i : ℕ) → List Block → Option (ℕ × List Block)
serve_from align size zero bs = serve align size bs
serve_from align size (suc i) [] = none
serve_from align size (suc i) (b ∷ bs) = behind b (serve_from align size i bs)

-- `for (p = pool->current; p->d.next; p = p->d.next) { if (p->d.failed++ > 4) … }`: the blocks from
-- index `i` on, and the index of `current`.
unfoldable pub count_failures : (i current : ℕ) → List Block → ℕ × List Block
count_failures i current [] = (current, [])
count_failures i current (b ∷ []) = (current, b ∷ [])
count_failures i current (b ∷ c ∷ bs) =
    let (current', bs') =
      count_failures (i + 1) (if ltb 4 b.failed then i + 1 else current) (c ∷ bs) in
    (current', record b { failed = (b.failed + 1) % 2 ^ 64 } ∷ bs')

-- the same, skipping the blocks in front of index `i`
unfoldable pub count_failures_from : (skip i current : ℕ) → List Block → ℕ × List Block
unfolding count_failures
count_failures_from zero i current bs = count_failures i current bs
count_failures_from (suc skip) i current [] = (current, [])
count_failures_from (suc skip) i current (b ∷ bs) =
    let (current', bs') = count_failures_from skip (i + 1) current bs in (current', b ∷ bs')

-- `pool->d.end - (u_char *) pool`
abbrev pub block_size : List Block → ℕ
block_size [] = 0
block_size (b ∷ bs) = distance b.end b.addr

abbrev pub new_block : (m psize size : ℕ) → Block
new_block m psize size = record {
  addr = m;
  last = align_ptr (m + sizeof_data) + size;
  end = m + psize;
  failed = 0;
}

-- the pool with a new block at its end
abbrev pub extended : Pool → (m psize size : ℕ) → Heap → Pool
extended p m psize size heap =
    let (current, blocks) = count_failures_from p.current 0 p.current p.blocks in
    record p { current = current; blocks = blocks ++ new_block m psize size ∷ []; heap = heap }

-- ngx_palloc_block
unfoldable pub palloc_block : Libc → Pool → (size : ℕ) → ℕ × Pool
palloc_block lib p size =
    let psize = block_size p.blocks in
    let (m, heap) = ngx_memalign lib pool_alignment psize p.heap in
    if m == null
    then (null, record p { heap = heap })
    else (align_ptr (m + sizeof_data), extended p m psize size heap)

-- ngx_palloc_small
unfoldable pub palloc_small : Libc → Pool → (size : ℕ) (align : Bool) → ℕ × Pool
palloc_small lib p size align = elim (serve_from align size p.current p.blocks) [
  | some (m, blocks) ↦ (m, record p { blocks = blocks })
  | none ↦ palloc_block lib p size
]
