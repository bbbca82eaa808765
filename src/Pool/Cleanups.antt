-- ===== src/Pool/Cleanups.antt =====
-- src/core/ngx_palloc.c: calls that give nothing back leave the cleanup entries where they are.
use nginx_inside_out.Prelude.{
  ℕ, ◌≡◌, Bool, true, false, List, [], ◌∷◌, Option, none, some, length, ◌<◌,
}
use nginx_inside_out.Pool.State.{Block, Large, Pool}
use nginx_inside_out.Pool.Life.{Destroyed, destroyed, dead_free, stale_read, destroy_pool}
use nginx_inside_out.Pool.Destroy.{IsDestroyed}
use nginx_inside_out.Pool.Whole.{IsWhole}
use nginx_inside_out.Pool.Lifetime.{AllKept, all_calls}
use nginx_inside_out.Pool.History.{Operation, give, reset}

abbrev IsTrue : Bool → Type 0
IsTrue true = Unit {0}
IsTrue false = ⊥

-- Neither ngx_reset_pool nor ngx_pfree is called.
abbrev pub AllTaking : List Operation → Type 0
AllTaking [] = Unit {0}
AllTaking (give q ∷ ops) = ⊥
AllTaking (reset ∷ ops) = ⊥
AllTaking (_ ∷ ops) = AllTaking ops

-- The entries of what a call leaves, where it meets no fault.
abbrev pub LeavesKept : Option (ℕ × Pool) → Type 0
LeavesKept none = Unit {0}
LeavesKept (some (m, p)) = AllKept p.cleanup

abbrev pub KeptIn : Option Pool → Type 0
KeptIn none = Unit {0}
KeptIn (some p) = AllKept p.cleanup

-- What ngx_destroy_pool does of a pool whose cleanup entries are kept: with one block it gives all back,
-- with several it frees the first twice.
abbrev pub Finishes : Pool → Destroyed → Type 0
Finishes p (destroyed calls h) =
    (calls ≡ all_calls p.cleanup) × ((b : Block) × (p.blocks ≡ b ∷ []) × IsDestroyed p b h)
Finishes p (dead_free calls) = (calls ≡ all_calls p.cleanup) × (1 < length p.blocks)
Finishes p (stale_read calls) = ⊥

abbrev pub Closes : Option Pool → Type 0
Closes none = ⊥
Closes (some q) = IsWhole q × Finishes q (destroy_pool q)
