-- ===== src/Shmem.antt =====
-- src/os/unix/ngx_shmem.c and ngx_shmem.h, with NGX_HAVE_MAP_ANON; `DevZero` is about the variant with
-- /dev/zero. The mappings of the process are the list of those that are in place. The calls of
-- ngx_log_error have no part in the model: the log is one whose level is 0 (NGX_LOG_STDERR), with which
-- that macro does nothing.
pub mod DevZero
mod Tests
use nginx_inside_out.Prelude.{
  ℕ, ◌-◌, ◌^◌, ◌≡◌, ◌≢◌, refl, ap, sym, inl, inr, Bool, true, false, not, List, [], ◌∷◌, Option,
  none, some, arith, ◌==◌, if◌then◌else◌, Bool-cases,
}
use nginx_inside_out.Pool.State.{Chunk, Heap}

-- ngx_shm_t, the fields that the two functions use
pub record Shm : Type 0 where
  pub addr : ℕ
  pub size : ℕ

-- MAP_FAILED, `(void *) -1`
abbrev pub map_failed : ℕ
map_failed = 2 ^ 64 - 1

-- NGX_OK and NGX_ERROR
pub data Status : Type 0 where
  ok : Status
  error : Status

-- `mmap` and `munmap` by the mappings that are in place: the address of a new mapping, or `none`, and
-- the mappings behind `munmap`, or `none` for -1
pub record System : Type 0 where
  pub mmap : (size : ℕ) → Heap → Option ℕ
  pub munmap : (addr size : ℕ) → Heap → Option Heap

abbrev pub address : Option ℕ → ℕ
address none = map_failed
address (some a) = a

abbrev pub mapped : Option ℕ → (size : ℕ) → Heap → Heap
mapped none size maps = maps
mapped (some a) size maps = record { base = a; size = size } ∷ maps

-- ngx_shm_alloc: `if (shm->addr = MAP_FAILED)` assigns, and tests what it has assigned
unfoldable pub shm_alloc : System → Shm → Heap → Status × Shm × Heap
shm_alloc sys shm maps =
    let r = sys.mmap shm.size maps in
    let shm1 = record shm { addr = address r } in
    let shm2 = record shm1 { addr = map_failed } in
    (if shm2.addr == 0
      then (ok, shm2, mapped r shm.size maps)
      else (error, shm2, mapped r shm.size maps))

-- ngx_shm_free
unfoldable pub shm_free : System → Shm → Heap → Heap
shm_free sys shm maps = elim (sys.munmap shm.addr shm.size maps) [
  | none ↦ maps
  | some maps' ↦ maps'
]

-- Nothing is mapped at MAP_FAILED, and `munmap` at an address that is no multiple of the page size
-- returns -1.
pub record IsSystem (sys : System) : Type 0 where
  pub apart : (size : ℕ) (maps : Heap) (a : ℕ) → sys.mmap size maps ≡ some a → a ≢ map_failed
  pub unaligned : (size : ℕ) (maps : Heap) → sys.munmap map_failed size maps ≡ none

-- Where `mmap` makes a mapping, `ngx_shm_alloc` nevertheless returns NGX_ERROR and keeps MAP_FAILED for
-- its address, and `ngx_shm_free` does not remove the mapping.
pub shm_alloc-leaked :
    (sys : System) (shm : Shm) (maps : Heap) (a : ℕ)
    → IsSystem sys
    → sys.mmap shm.size maps ≡ some a
    → ((shm_alloc sys shm maps).0 ≡ error)
      × ((shm_alloc sys shm maps).1.addr ≢ a)
      × (shm_free sys (shm_alloc sys shm maps).1 (shm_alloc sys shm maps).2
          ≡ record { base = a; size = shm.size } ∷ maps)
unfolding shm_alloc shm_free
shm_alloc-leaked sys shm maps a is got = (
  refl,
  λ e. is.apart shm.size maps a got (sym e),
  rw (shm_free, is.unaligned shm.size (mapped (sys.mmap shm.size maps) shm.size maps))
      (ap (λ r. mapped r shm.size maps) got),
)
