-- ===== src/PartList/Pushes.antt =====
-- src/core/ngx_list.c and ngx_list.h: a list from ngx_list_create through pushes to its iteration.
use nginx_inside_out.Prelude.{
  ℕ, zero, suc, ◌≤◌, ◌≡◌, List, [], ◌∷◌, ◌++◌, Option, none, some, ◌==◌, if◌then◌else◌, length,
}
use nginx_inside_out.Pool.State.{Pool, Libc, null}
use nginx_inside_out.PartList.{Parts, list_push}
use nginx_inside_out.PartList.Append.{slots, IsList}
use nginx_inside_out.PartList.Iterate.{iterate}

-- What pushes leave: the addresses that were returned, NULL aside, the list and the pool.
pub record AllPushed : Type 0 where
  pub elts : List ℕ
  pub list : Parts
  pub pool : Pool

abbrev pub with_elt : (elt : ℕ) → Option AllPushed → Option AllPushed
with_elt elt none = none
with_elt elt (some r) = some (if elt == null then r else record r { elts = elt ∷ r.elts })

-- `count` pushes, one after the other
unfoldable pub push_all : Libc → (garbage count : ℕ) → Parts → Pool → Option AllPushed
push_all lib garbage zero l p = some (record { elts = []; list = l; pool = p })
push_all lib garbage (suc count) l p = elim (list_push lib garbage l p) [
  | none ↦ none
  | some r ↦ with_elt r.elt (push_all lib garbage count r.list r.pool)
]

-- The pushes come back, and what they returned is what has been added.
abbrev Adds : (old : List ℕ) (count : ℕ) → Option AllPushed → Type 0
Adds old count none = ⊥
Adds old count (some r) = (slots r.list ≡ old ++ r.elts) × IsList r.list × (length r.elts ≤ count)

-- What a list goes through that ngx_list_create has made: pushes, and an iteration.
abbrev pub Runs : Libc → (garbage count rounds : ℕ) → Option (Option Parts × Pool) → Type 0
Runs lib garbage count rounds none = ⊥
Runs lib garbage count rounds (some (none, p)) = Unit {0}
Runs lib garbage count rounds (some (some l, p)) =
    (r : AllPushed) × (push_all lib garbage count l p ≡ some r)
    × (iterate rounds r.list ≡ some r.elts)
    × (length r.elts ≤ count)
