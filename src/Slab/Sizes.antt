-- ===== src/Slab/Sizes.antt =====
-- src/core/ngx_slab.c, the two loops over sizes: the exact shift of ngx_slab_sizes_init, and the size
-- class of ngx_slab_alloc_locked.
use nginx_inside_out.Prelude.{
  ℕ, zero, suc, ◌+◌, ◌-◌, ◌*◌, ◌/◌, ◌^◌, ◌≤◌, ◌<◌, ◌≡◌, refl, Option, none, some, Acc, lt_wf,
  dec_lt, arith, ◌==◌, if◌then◌else◌,
}
use native.Mathlib.Nat.{mul-le-mul_right, pow-succ'}
use nginx_inside_out.Slab.{shift_loop, sizes_init}

-- `shift = 1; for (s = size - 1; s >> 1; shift++) { }`; `none` where the rounds are used up
unfoldable pub class_loop : (rounds s shift : ℕ) → Option ℕ
class_loop zero s shift = none
class_loop (suc rounds) s shift =
    let rest = class_loop rounds s (shift + 1) in if s / 2 == 0 then some shift else rest

-- However many rounds it is given, the loop over the size class does not end for sizes of 3 and more.
pub class_loop-endless :
    (rounds size shift : ℕ) → 3 ≤ size → class_loop rounds (size - 1) shift ≡ none
unfolding class_loop
class_loop-endless zero size shift h = refl
class_loop-endless (suc rounds) size shift h =
    ground (arith, class_loop-endless rounds size (shift + 1) h)

double : (k : ℕ) → 2 ^ (k + 1) ≡ 2 * 2 ^ k
double k = let e : k + 1 ≡ suc k = omega arith in rw (e, pow-succ' 2 k) refl

halved-le : (n p : ℕ) → n / 2 * (2 * p) ≤ n * p
halved-le n p =
    let e : n / 2 * (2 * p) ≡ n / 2 * 2 * p = omega arith in rw e (mul-le-mul_right p (omega arith))

halved-ge : (n p : ℕ) → (n + 1) * p ≤ (n / 2 + 1) * (2 * p)
halved-ge n p =
    let e : (n / 2 + 1) * (2 * p) ≡ (n / 2 * 2 + 2) * p = omega arith in
    rw e (mul-le-mul_right p (omega arith))

shift_loop-bounds :
    (n : ℕ) (a : Acc ◌<◌ n) (shift : ℕ)
    → 0 < n
    → (2 ^ shift_loop n a shift ≤ n * 2 ^ shift)
      × ((n + 1) * 2 ^ shift ≤ 2 ^ (shift_loop n a shift + 1))
unfolding shift_loop dec_lt
shift_loop-bounds n (Acc.intro _ smaller) shift pos = grind (
  arith,
  double,
  halved-le n (2 ^ shift),
  halved-ge n (2 ^ shift),
  λ (p : n / 2 < n). λ (q : 0 < n / 2). shift_loop-bounds (n / 2) (smaller (n / 2) p) (shift + 1) q,
)

-- For pages of at least 64 bytes, the loop of `ngx_slab_sizes_init` ends, and its shift is the
-- logarithm to the base 2 of the exact size, rounded down.
pub sizes_init-log :
    (page_size : ℕ)
    → 64 ≤ page_size
    → (2 ^ (sizes_init page_size).exact_shift ≤ (sizes_init page_size).exact_size)
      × ((sizes_init page_size).exact_size < 2 ^ ((sizes_init page_size).exact_shift + 1))
unfolding sizes_init
sizes_init-log page_size h =
    ground
      (arith, shift_loop-bounds (page_size / 64) (lt_wf.apply (page_size / 64)) 0 (omega arith))
