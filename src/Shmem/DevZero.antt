-- ===== src/Shmem/DevZero.antt =====
-- src/os/unix/ngx_shmem.c, the variant with NGX_HAVE_MAP_DEVZERO and without NGX_HAVE_MAP_ANON. The
-- calls of ngx_log_error have no part in the model: the log is one whose level is 0 (NGX_LOG_STDERR),
-- with which that macro does nothing.
use nginx_inside_out.Prelude.{
  ℕ, ◌≡◌, refl, inl, inr, false, List, ◌∷◌, Option, none, some, arith, ◌==◌, if◌then◌else◌,
  Option-cases,
}
use nginx_inside_out.Pool.State.{Heap}
use nginx_inside_out.Shmem
use nginx_inside_out.Shmem.{Shm, Status, ok, error, System, IsSystem, map_failed, address, mapped}

-- The mappings of the process that are in place, and its open descriptors.
pub record Process : Type 0 where
  pub maps : Heap
  pub fds : List ℕ

-- `open` of /dev/zero and `close` by the descriptors that are open: the descriptor, and those that are
-- left; `none` is -1.
pub record Device : Type 0 where
  pub open_zero : List ℕ → Option ℕ
  pub close : (fd : ℕ) → List ℕ → Option (List ℕ)

abbrev pub closed : Option (List ℕ) → List ℕ → List ℕ
closed none fds = fds
closed (some rest) fds = rest

-- ngx_shm_alloc
unfoldable pub shm_alloc : System → Device → Shm → Process → Status × Shm × Process
shm_alloc sys dev shm p = elim (dev.open_zero p.fds) [
  | none ↦ (error, shm, p)
  | some fd ↦
      let r = sys.mmap shm.size p.maps in
      let shm1 = record shm { addr = address r } in
      let fds1 = fd ∷ p.fds in
      (
        (if shm1.addr == map_failed then error else ok),
        shm1,
        record { maps = mapped r shm.size p.maps; fds = closed (dev.close fd fds1) fds1 },
      )
]

-- ngx_shm_free
abbrev pub shm_free : System → Shm → Process → Process
shm_free sys shm p = record p { maps = Shmem.shm_free sys shm p.maps }

-- A descriptor that was opened can be closed.
pub record IsDevice (dev : Device) : Type 0 where
  pub closes :
      (fds : List ℕ) (fd : ℕ) → dev.open_zero fds ≡ some fd → dev.close fd (fd ∷ fds) ≡ some fds

-- A mapping that was made can be removed.
pub record IsMapper (sys : System) : Type 0 where
  pub removes :
      (size : ℕ) (maps : Heap) (a : ℕ)
      → sys.mmap size maps ≡ some a
      → sys.munmap a size (record { base = a; size = size } ∷ maps) ≡ some maps

-- What a call has done, by what `open` and `mmap` give: either nothing is mapped, or a mapping that
-- ngx_shm_free removes.
abbrev pub IsAllocated :
    System → Process → (fd addr : Option ℕ) (size : ℕ) → Status × Shm × Process → Type 0
IsAllocated sys p (some fd) (some a) size (status, shm, q) =
    (status ≡ ok)
    × (shm ≡ record { addr = a; size = size })
    × (q ≡ record { maps = record { base = a; size = size } ∷ p.maps; fds = p.fds })
    × (shm_free sys shm q ≡ p)
IsAllocated sys p fd addr size (status, shm, q) = (status ≡ error) × (q ≡ p)

-- Where nothing is mapped at MAP_FAILED, a new mapping can be removed and an opened descriptor closed:
-- the descriptor of /dev/zero is closed in all cases. ngx_shm_alloc returns NGX_OK exactly where /dev/zero
-- can be opened and mapped, with the address of the new mapping, and then ngx_shm_free leaves the
-- process as it was before; otherwise NGX_ERROR is returned and nothing is mapped.
pub shm_alloc-IsAllocated :
    (sys : System) (dev : Device) (shm : Shm) (p : Process)
    → IsSystem sys
    → IsMapper sys
    → IsDevice dev
    → IsAllocated sys p
        (dev.open_zero p.fds)
        (sys.mmap shm.size p.maps)
        shm.size
        (shm_alloc sys dev shm p)
unfolding shm_alloc Shmem.shm_free
shm_alloc-IsAllocated sys dev shm p is maps device = elim (Option-cases (dev.open_zero p.fds)) [
  | inl no_fd ↦ rw (shm_alloc, no_fd) (refl, refl)
  | inr (fd, opened) ↦ elim (Option-cases (sys.mmap shm.size p.maps)) [
    | inl no_map ↦ rw (shm_alloc, opened, no_map, device.closes p.fds fd opened) (refl, refl)
    | inr (a, got) ↦
        let found : (a == map_failed) ≡ false = ground (arith, is.apart shm.size p.maps a got) in
        rw (shm_alloc, opened, got, device.closes p.fds fd opened, found)
          (refl, refl, refl, rw (Shmem.shm_free, maps.removes shm.size p.maps a got) refl)
  ]
]
