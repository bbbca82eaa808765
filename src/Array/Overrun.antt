-- ===== src/Array/Overrun.antt =====
-- src/core/ngx_array.c, ngx_array_push_n: where its test takes memory that the array does not end at.
use nginx_inside_out.Prelude.{ℕ, ◌+◌, ◌*◌, ◌≤◌, ◌<◌, Option, none, some}
use nginx_inside_out.Pool.State.{Pool}
use nginx_inside_out.Array.{Array, main_last, main_end, Pushed}
use nginx_inside_out.Array.Slots.{room, IsIn}

-- The main block is used up beyond its end, and the slots take the bytes behind the array that were
-- given out to somebody else.
record IsOverrun (n : ℕ) (a : Array) (p : Pool) (r : Pushed) : Type 0 where
  beyond : main_end r.pool.blocks < main_last r.pool.blocks
  others : (x : ℕ) → a.elts + room a ≤ x → x < main_last p.blocks → IsIn r.elt (n * a.size) x

pub Overruns : ℕ → Array → Pool → Option Pushed → Type 0
Overruns n a p none = ⊥
Overruns n a p (some r) = IsOverrun n a p r
