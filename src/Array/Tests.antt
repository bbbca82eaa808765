-- ===== src/Array/Tests.antt =====
-- src/core/ngx_array.c: arrays of two elements of 8 bytes in a small pool.
use nginx_inside_out.Prelude.{◌≡◌, refl, inl, [], ◌∷◌, some, arith}
use nginx_inside_out.Pool.State.{Pool}
use nginx_inside_out.Pool.Wf.{IsPool}
use nginx_inside_out.Pool.Large.{Memory}
use nginx_inside_out.Pool.Example.{libc, libc-IsLibc, main_block, one_block}
use nginx_inside_out.Pool.Blocks.{IsBlock}
use nginx_inside_out.Array.{Array, array_push, array_create}
use nginx_inside_out.Array.Growth.{IfPushed, array_push_twice}
use nginx_inside_out.Array.Slots.{IsBacked, Pushes, array_push-Pushes}
use nginx_inside_out.Array.Destroy.{Restores, with_main, array_destroy-create}

abbrev full : Array
full = record { elts = 96; nelts = 2; size = 8; nalloc = 2 }

abbrev bytes : Memory
bytes a = a

-- The array is what the main block has given out.
abbrev pool : Pool
pool = record one_block { blocks = record main_block { last = 112 } ∷ [] }

pool-IsPool : IsPool pool
pool-IsPool = record {
  blocks = (omega arith, tt);
  apart = (tt, tt);
  live = ground arith;
  current = omega arith;
  limit = omega arith;
}

full-IsBacked : IsBacked full pool
full-IsBacked x (low, high) = inl (omega arith, omega arith)

array_push-Pushes_example : Pushes full pool bytes (array_push libc 0 full pool bytes)
array_push-Pushes_example =
    array_push-Pushes full pool bytes pool-IsPool full-IsBacked (omega arith) libc 0 libc-IsLibc
      refl (omega arith) (omega arith) (omega arith)

array_push_twice_example :
    IfPushed
      (λ r. array_push libc 0 r.array r.pool r.mem ≡ some r)
      (array_push libc 0 full one_block bytes)
array_push_twice_example =
    array_push_twice libc 0 full one_block bytes (omega arith) (omega arith) (omega arith)

main_block-IsBlock : IsBlock main_block
main_block-IsBlock = omega arith

array_destroy-create_example :
    Restores
      (with_main main_block [] one_block)
      96
      (array_create libc (with_main main_block [] one_block) 0 4 8)
array_destroy-create_example =
    array_destroy-create libc main_block [] one_block 0 4 8 main_block-IsBlock (omega arith)
      (omega arith) (omega arith)

-- An array of two elements, with 64 bytes behind it that are another's, and ten more elements.
abbrev crowded : Pool
crowded = record one_block { blocks = record main_block { last = 176 } ∷ [] }
