-- ===== src/Pool/Example.antt =====
-- src/core/ngx_palloc.c: a C library that hands out memory upwards, and a pool over it.
use nginx_inside_out.Prelude.{
  ℕ, ◌+◌, ◌*◌, ◌/◌, ◌^◌, ◌<◌, inr, ◌&&◌, [], ◌∷◌, none, some, arith, ltb, ◌==◌, if◌then◌else◌,
}
use nginx_inside_out.Pool.State.{Block, Heap, Pool, Libc, IsLibc, IsFresh}
use nginx_inside_out.Pool.Wf.{IsPool}

-- an address above every chunk
abbrev top : Heap → ℕ
top [] = 0
top (c ∷ h) = c.base + c.size + top h

abbrev above : Heap → ℕ
above h = (top h / 16 + 1) * 16

abbrev pub libc : Libc
libc = record {
  posix_memalign = λ alignment size h.
      if alignment == 16 && ltb (above h + size) (2 ^ 64) then some (above h) else none;
  malloc = λ size h. if ltb (above h + size) (2 ^ 64) then above h else 0;
  garbage = 0;
}

fresh_above : (p size : ℕ) (h : Heap) → top h < p → IsFresh p size h
fresh_above p size [] q = tt
fresh_above p size (c ∷ h) q =
    ((omega arith, inr (omega arith)), fresh_above p size h (omega arith))

pub libc-IsLibc : IsLibc libc
libc-IsLibc = record {
  aligned = λ alignment size h p pos e. ground (arith, fresh_above (above h) size h);
  fresh = λ size h e. ground (arith, fresh_above (above h) size h);
}

abbrev pub main_block : Block
main_block = record { addr = 16; last = 96; end = 216; failed = 0 }

abbrev pub one_block : Pool
one_block = record {
  blocks = main_block ∷ [];
  current = 0;
  max = 120;
  large = [];
  cleanup = [];
  heap = record { base = 16; size = 200 } ∷ [];
}

pub one_block-IsPool : IsPool one_block
one_block-IsPool = record {
  blocks = (omega arith, tt);
  apart = (tt, tt);
  live = ground arith;
  current = omega arith;
  limit = omega arith;
}
