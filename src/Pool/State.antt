-- ===== src/Pool/State.antt =====
-- src/core/ngx_palloc.h, and src/os/unix/ngx_alloc.c as the pool calls it. Pointers are addresses,
-- and NULL is 0. The chain of `d.next` pointers is a list in order, and `current` an index into it. The
-- calls of ngx_log_error have no part in the model: the log is one whose level is 0 (NGX_LOG_STDERR),
-- with which that macro does nothing.
use nginx_inside_out.Prelude.{
  ℕ, ◌+◌, ◌-◌, ◌*◌, ◌/◌, ◌%◌, ◌^◌, ◌≤◌, ◌<◌, ◌≡◌, ◌≢◌, ◌⊎◌, Bool, false, List, [], ◌∷◌, Option,
  none, some, ◌==◌, if◌then◌else◌,
}

abbrev pub null : ℕ
null = 0

-- ngx_pool_data_t, with the address of the struct it stands in
pub record Block : Type 0 where
  pub addr : ℕ
  pub last : ℕ
  pub end : ℕ
  pub failed : ℕ

-- ngx_pool_large_t
pub record Large : Type 0 where
  pub addr : ℕ
  pub alloc : ℕ

-- ngx_pool_cleanup_t; a handler is a function's address. The struct stands in memory of the pool, and
-- `kept` says whether that is still its own: ngx_reset_pool gives it back, and so does ngx_pfree where
-- it is a large allocation, while the list goes on to point to it.
pub record Cleanup : Type 0 where
  pub addr : ℕ
  pub kept : Bool
  pub handler : ℕ
  pub arg : ℕ

abbrev pub given_back : Cleanup → Cleanup
given_back c = record c { kept = false }

-- what the C library has handed out: address and size
pub record Chunk : Type 0 where
  pub base : ℕ
  pub size : ℕ

abbrev pub Heap : Type 0
Heap = List Chunk

-- ngx_pool_t, and the heap around it
pub record Pool : Type 0 where
  pub blocks : List Block
  pub current : ℕ
  pub max : ℕ
  pub large : List Large
  pub cleanup : List Cleanup
  pub heap : Heap

-- sizes on 64-bit platforms
abbrev pub sizeof_pool : ℕ
sizeof_pool = 80

abbrev pub sizeof_data : ℕ
sizeof_data = 32

abbrev pub sizeof_large : ℕ
sizeof_large = 16

abbrev pub sizeof_cleanup : ℕ
sizeof_cleanup = 24

abbrev pub pool_alignment : ℕ
pool_alignment = 16

-- `ngx_align_ptr(p, NGX_ALIGMENT)`: clearing the three low bits rounds down to a multiple of 8.
abbrev pub align_ptr : ℕ → ℕ
align_ptr p = (p + 7) / 8 * 8

-- `(size_t) (end - m)`
abbrev pub distance : (end m : ℕ) → ℕ
distance end m = (end + 2 ^ 64 - m) % 2 ^ 64

-- The C library: `posix_memalign` and `malloc` by the chunks that are live, `none` and NULL where
-- they fail, and the value that an uninitialised pointer on the stack happens to have.
pub record Libc : Type 0 where
  pub posix_memalign : (alignment size : ℕ) → Heap → Option ℕ
  pub malloc : (size : ℕ) → Heap → ℕ
  pub garbage : ℕ

-- A range does not meet a chunk, nor begin where it does.
abbrev pub IsApart : (base size : ℕ) → Chunk → Type 0
IsApart base size c = (base ≢ c.base) × ((base + size ≤ c.base) ⊎ (c.base + c.size ≤ base))

abbrev pub IsFresh : (base size : ℕ) → Heap → Type 0
IsFresh base size [] = Unit {0}
IsFresh base size (c ∷ h) = IsApart base size c × IsFresh base size h

-- What the manual pages promise: memory that nobody else has, below the end of the address space,
-- aligned as asked, where the size is not 0.
pub record IsLibc (lib : Libc) : Type 0 where
  pub aligned :
      (alignment size : ℕ) (h : Heap) (p : ℕ)
      → 0 < size
      → lib.posix_memalign alignment size h ≡ some p
      → (0 < p) × (p % alignment ≡ 0) × (p + size < 2 ^ 64) × IsFresh p size h
  pub fresh :
      (size : ℕ) (h : Heap)
      → 0 < lib.malloc size h
      → (lib.malloc size h + size < 2 ^ 64) × IsFresh (lib.malloc size h) size h

-- ngx_memalign: `p` is not assigned where `posix_memalign` fails.
abbrev pub memalign_result : Libc → Option ℕ → ℕ
memalign_result lib none = lib.garbage
memalign_result lib (some p) = p

abbrev pub memalign_heap : (size : ℕ) → Option ℕ → Heap → Heap
memalign_heap size none h = h
memalign_heap size (some p) h = record { base = p; size = size } ∷ h

unfoldable pub ngx_memalign : Libc → (alignment size : ℕ) → Heap → ℕ × Heap
ngx_memalign lib alignment size h =
    let r = lib.posix_memalign alignment size h in (memalign_result lib r, memalign_heap size r h)

-- ngx_alloc
unfoldable pub ngx_alloc : Libc → (size : ℕ) → Heap → ℕ × Heap
ngx_alloc lib size h =
    let p = lib.malloc size h in
    if p == null then (null, h) else (p, record { base = p; size = size } ∷ h)

-- `free`: NULL is passed over, and what is not live is a fault.
unfoldable pub release : (p : ℕ) → Heap → Option Heap
release p [] = none
release p (c ∷ h) =
    if c.base == p then some h else elim (release p h) [ none ↦ none | some h' ↦ some (c ∷ h') ]

unfoldable pub ngx_free : (p : ℕ) → Heap → Option Heap
unfolding release
ngx_free p h = if p == null then some h else release p h
