-- ===== src/Shmem/Tests.antt =====
-- src/os/unix/ngx_shmem.c: the theorems with systems that have memory.
use nginx_inside_out.Prelude.{
  ◌≡◌, ◌≢◌, [], ◌∷◌, none, some, false, refl, arith, ◌==◌, if◌then◌else◌,
}
use nginx_inside_out.Shmem.DevZero.{
  Process, Device, IsDevice, IsMapper, IsAllocated, shm_alloc-IsAllocated,
}
use nginx_inside_out.Shmem.DevZero
use nginx_inside_out.Shmem.{
  Shm, System, IsSystem, map_failed, error, shm_alloc, shm_free, shm_alloc-leaked,
}

abbrev shm : Shm
shm = record { addr = 0; size = 4096 }

abbrev sys : System
sys = record {
  mmap = λ size maps. some 8192;
  munmap = λ addr size maps. if addr == map_failed then none else some [];
}

sys-IsSystem : IsSystem sys
sys-IsSystem = record { apart = λ size maps a e. ground arith; unaligned = λ size maps. refl }

shm_alloc-leaked_example :
    ((shm_alloc sys shm []).0 ≡ error)
    × ((shm_alloc sys shm []).1.addr ≢ 8192)
    × (shm_free sys (shm_alloc sys shm []).1 (shm_alloc sys shm []).2
        ≡ record { base = 8192; size = 4096 } ∷ [])
shm_alloc-leaked_example = shm_alloc-leaked sys shm [] 8192 sys-IsSystem refl

-- a system with one descriptor free
abbrev device : Device
device = record {
  open_zero = λ fds. some 3;
  close = λ fd fds. elim fds [ [] ↦ none | ◌∷◌ top rest ↦ if top == fd then some rest else none ];
}

device-IsDevice : IsDevice device
device-IsDevice = record { closes = λ fds fd e. ground arith }

-- a system that removes the last mapping
abbrev mapper : System
mapper = record {
  mmap = λ size maps. some 8192;
  munmap = λ addr size maps.
      if addr == map_failed then none else elim maps [ [] ↦ none | ◌∷◌ top rest ↦ some rest ];
}

mapper-IsSystem : IsSystem mapper
mapper-IsSystem = record { apart = λ size maps a e. ground arith; unaligned = λ size maps. refl }

mapper-IsMapper : IsMapper mapper
mapper-IsMapper = record {
  removes = λ size maps a e. let other : (a == map_failed) ≡ false = ground arith in rw other refl;
}

abbrev process : Process
process = record { maps = record { base = 4096; size = 4096 } ∷ []; fds = 0 ∷ [] }

shm_alloc-IsAllocated_example :
    IsAllocated mapper process
      (device.open_zero process.fds)
      (mapper.mmap shm.size process.maps)
      shm.size
      (DevZero.shm_alloc mapper device shm process)
shm_alloc-IsAllocated_example =
    shm_alloc-IsAllocated mapper device shm process mapper-IsSystem mapper-IsMapper device-IsDevice
