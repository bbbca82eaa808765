-- ===== src/Array/Growth.antt =====
-- src/core/ngx_array.c: a push that is repeated.
use nginx_inside_out.Prelude.{
  ℕ, ◌+◌, ◌-◌, ◌^◌, ◌≤◌, ◌<◌, ◌≡◌, ◌⊎◌, inl, inr, refl, true, false, ◌&&◌, Option, none, some, ltb,
  leb, ◌==◌, arith, Bool-cases,
}
use nginx_inside_out.Pool.State.{Pool, Libc, null}
use nginx_inside_out.Pool.Large.{Memory, palloc}
use nginx_inside_out.Pool.Total.{Returns, palloc-Returns}
use nginx_inside_out.Array.{
  Array, add_size, mul_size, main_last, main_end, memcpy, Pushed, push_end, moved, array_push,
}

-- A push comes back, and where it returns memory, `P` holds of what it returns.
abbrev pub IfPushed : (Pushed → Type 0) → Option Pushed → Type 0
IfPushed P none = ⊥
IfPushed P (some r) = (r.elt ≡ null) ⊎ P r

-- The bytes of the old elements are those of the new ones.
abbrev pub SameContents : (bytes : ℕ) → Array → Memory → Pushed → Type 0
SameContents bytes a mem r = (i : ℕ) → i < bytes → r.mem (r.array.elts + i) ≡ mem (a.elts + i)

pub memcpy-same :
    (dst src n i : ℕ) (mem : Memory) → i < n → memcpy dst src n mem (dst + i) ≡ mem (src + i)
memcpy-same dst src n i mem h =
    let inside : (leb dst (dst + i) && ltb (dst + i) (dst + n)) ≡ true = ground arith in
    let offset : dst + i - dst ≡ i = omega arith in rw (inside, offset)

pub moved-IfPushed :
    (P : Pushed → Type 0) (bytes nalloc : ℕ) (a : Array) (mem : Memory)
    (finish : Array → Pool → Memory → Pushed) (r : Option (ℕ × Pool))
    → Returns r
    → ((new : ℕ) (p : Pool)
        → P (finish (record a { elts = new; nalloc = nalloc }) p (memcpy new a.elts bytes mem)))
    → IfPushed P (moved bytes nalloc a mem finish r)
moved-IfPushed P bytes nalloc a mem finish none back h = back
moved-IfPushed P bytes nalloc a mem finish (some (new, p)) back h =
    elim (Bool-cases (new == null)) [
      | inl failed ↦ rw failed (inl refl)
      | inr got ↦ rw got (inr (h new p))
    ]

-- doubling a capacity that is not 0 makes room
twice : {n m : ℕ} → n ≡ m → 0 < m → m < 2 ^ 62 → n + 1 ≤ mul_size 2 m
twice e pos small = ground arith

module _ (lib : Libc) (garbage : ℕ) (a : Array) (p : Pool) (mem : Memory) where
  -- On an array with a capacity that is not 0, below 2^62 and no less than its length, a push comes
  -- back, and where it does not return NULL a second push returns what the first did: the same
  -- address, array, pool and memory.
  pub array_push_twice :
      a.nelts ≤ a.nalloc
      → 0 < a.nalloc
      → a.nalloc < 2 ^ 62
      → IfPushed
          (λ r. array_push lib garbage r.array r.pool r.mem ≡ some r)
          (array_push lib garbage a p mem)
  unfolding array_push
  array_push_twice h pos small = elim (Bool-cases (a.nelts == a.nalloc)) [
    | inl full ↦
        let eq : a.nelts ≡ a.nalloc = ground arith in
        elim (Bool-cases (
          a.elts + bytes == main_last p.blocks
          && leb (main_last p.blocks + a.size) (main_end p.blocks))) [
            | inl grows ↦
                let room : (a.nelts == add_size a.nalloc 1) ≡ false = ground arith in
                rw (full, grows) (inr (rw room refl))
            | inr moves ↦
                rw (full, moves)
                  (moved-IfPushed (λ r. array_push lib garbage r.array r.pool r.mem ≡ some r) bytes
                    (mul_size 2 a.nalloc) a mem push_end
                    (palloc lib true p garbage (mul_size 2 bytes))
                    (palloc-Returns lib true p garbage (mul_size 2 bytes))
                    λ new p'.
                      let more : a.nelts + 1 ≤ mul_size 2 a.nalloc = twice eq pos small in
                      let room : (a.nelts == mul_size 2 a.nalloc) ≡ false = ground arith in
                      rw room refl)
          ]
    | inr room ↦ rw room (inr (rw room refl))
  ]
    where
      bytes : ℕ
      bytes = mul_size a.size a.nalloc
