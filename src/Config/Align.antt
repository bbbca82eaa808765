-- ===== src/Config/Align.antt =====
-- src/core/ngx_config.h, ngx_align_ptr: the mask rounds up to a multiple.
use Prim.Native.Nat.{bit_and-bitwise, digits}
use native.Mathlib.Nat.{
  mod-lt, mod-add-div', mul-mod_left, one-le-pow, zero-div, pow-succ', div-div-eq-div-mul,
}
use nginx_inside_out.Prelude.{
  ℕ, zero, suc, ◌+◌, ◌-◌, ◌*◌, ◌/◌, ◌%◌, ◌^◌, ◌≤◌, ◌<◌, ◌≡◌, sym, ap, ◌∙◌, min, arith,
}
use nginx_inside_out.Config
use nginx_inside_out.Pool.State
use nginx_inside_out.Slab
use nginx_inside_out.Slab.{pagesize}

nothing : (k a : ℕ) → a ≤ 0 → 0 ≡ a / 2 ^ k * 2 ^ k
nothing k a h =
    let none_left : a ≡ 0 = omega arith in rw (none_left, zero-div (2 ^ k)) (omega arith)

-- A mask of ones above `k` zeros, for a number of at most `w` digits, clears the lowest `k`.
masked :
    (n a w k : ℕ)
    → a ≤ n
    → a < 2 ^ w
    → k ≤ w
    → digits (λ b. zero) min n a (2 ^ w - 2 ^ k) ≡ a / 2 ^ k * 2 ^ k
masked zero a w k h wide le = nothing k a h
masked (suc n) zero w k h wide le = nothing k 0 (omega arith)
masked (suc n) (suc a) zero k h wide le = absurd (omega arith)
masked (suc n) (suc a) (suc w) zero h wide le =
    let low : (2 ^ suc w - 1) % 2 ≡ 1 = omega (arith, pow-succ' 2 w) in
    let rest : (2 ^ suc w - 1) / 2 ≡ 2 ^ w - 1 = omega (arith, pow-succ' 2 w) in
    rw (low, rest)
      (omega (
        arith,
        masked n (suc a / 2) w 0 (omega arith) (omega (arith, pow-succ' 2 w)) (omega arith),
      ))
masked (suc n) (suc a) (suc w) (suc k) h wide le =
    let low : (2 ^ suc w - 2 ^ suc k) % 2 ≡ 0 = omega (arith, pow-succ' 2 w, pow-succ' 2 k) in
    let rest : (2 ^ suc w - 2 ^ suc k) / 2 ≡ 2 ^ w - 2 ^ k =
      omega (arith, pow-succ' 2 w, pow-succ' 2 k) in
    let halved : suc a / 2 ^ suc k ≡ suc a / 2 / 2 ^ k =
      ap (λ m. suc a / m) (pow-succ' 2 k) ∙ sym (div-div-eq-div-mul (suc a) 2 (2 ^ k)) in
    rw (low, rest, halved, pow-succ' 2 k)
      (omega (
        arith,
        masked n (suc a / 2) w k (omega arith) (omega (arith, pow-succ' 2 w)) (omega arith),
        pow-succ' 2 k,
      ))

pub align_ptr-div :
    (p k : ℕ)
    → k ≤ 64
    → p + 2 ^ k ≤ 2 ^ 64
    → Config.align_ptr p (2 ^ k) ≡ (p + (2 ^ k - 1)) / 2 ^ k * 2 ^ k
unfolding Config.align_ptr
align_ptr-div p k small room =
    let one : 1 ≤ 2 ^ k = one-le-pow k 2 (omega arith) in
    let word : (p + (2 ^ k - 1)) % 2 ^ 64 ≡ p + (2 ^ k - 1) = omega arith in
    let mask : Config.complement (2 ^ k - 1) ≡ 2 ^ 64 - 2 ^ k = omega arith in
    rw (word, mask)
      (bit_and-bitwise (p + (2 ^ k - 1)) (2 ^ 64 - 2 ^ k)
        ∙ masked (p + (2 ^ k - 1)) (p + (2 ^ k - 1)) 64 k (omega arith) (omega arith) small)

-- The least multiple of `a` that is not below `p`.
pub record IsRoundedUp (a p r : ℕ) : Type 0 where
  pub multiple : r % a ≡ 0
  pub above : p ≤ r
  pub next : r < p + a

-- For a power of two and an address whose sum is not above 2^64, the mask of `ngx_align_ptr` gives the
-- least multiple of the power that is not below the address.
pub align_ptr-IsRoundedUp :
    (p k : ℕ) → k ≤ 64 → p + 2 ^ k ≤ 2 ^ 64 → IsRoundedUp (2 ^ k) p (Config.align_ptr p (2 ^ k))
align_ptr-IsRoundedUp p k small room =
    let a = 2 ^ k in
    let sum = p + (a - 1) in
    let one : 1 ≤ a = one-le-pow k 2 (omega arith) in
    let left : sum % a < a = mod-lt sum (omega arith) in
    rw (align_ptr-div p k small room) record {
      multiple = mul-mod_left (sum / a) a;
      above = omega (arith, mod-add-div' sum a);
      next = omega (arith, mod-add-div' sum a);
    }

-- What the pool computes for a word, and the slab allocator for a page.
pub align_ptr-align_ptr : (p : ℕ) → p + 8 ≤ 2 ^ 64 → Config.align_ptr p 8 ≡ State.align_ptr p
align_ptr-align_ptr p room = align_ptr-div p 3 (omega arith) room

pub align_ptr-align_page :
    (p : ℕ) → p + pagesize ≤ 2 ^ 64 → Config.align_ptr p pagesize ≡ Slab.align_page p
align_ptr-align_page p room = align_ptr-div p 12 (omega arith) room
