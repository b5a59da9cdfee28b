-- ===== src/Memory.antt =====
-- MemoryHandler and its two implementations (include/axoncache/memory/MemoryHandler.h,
-- src/axoncache/memory/*.cpp). `block` names the allocation that `data()` points to: `calloc` and
-- `realloc` may move it, and a pointer to an earlier block is a freed one.
pub mod Laws
use axon_cache.Prelude.{
  ℕ, ◌+◌, ◌/◌, ◌-◌, Result, ok, throw, undefined, diverges, not_resizable, ◌>>=◌, leb, ltb, u64,
  if◌then◌else◌,
}
use axon_cache.Ram.{Ram}

pub data Kind : Type 0 where
  malloc_memory : Kind
  mmap_memory : Kind

pub record Memory : Type 0 where
  pub kind : Kind
  pub block : ℕ
  pub bytes : Ram
  pub data_size : ℕ
  pub real_data_size : ℕ

-- `MallocMemoryHandler( initialCapacity )`: zeroed by `calloc`, no data yet
unfoldable pub new_malloc : ℕ → Memory
new_malloc capacity = record {
  kind = malloc_memory;
  block = 0;
  bytes = λ _. 0;
  data_size = 0;
  real_data_size = capacity;
}

-- `MmapMemoryHandler`: the mapping starts at the file's header, the data behind it. Only a file
-- that is longer than its header is mapped.
unfoldable pub new_mmap : ℕ → ℕ → Ram → Memory
new_mmap header_size base_size file = record {
  kind = mmap_memory;
  block = 0;
  bytes = λ a. file (header_size + a);
  data_size = base_size - header_size;
  real_data_size = 0;
}

unfoldable pub allocate : ℕ → Memory → Result Memory
allocate new_size m = elim m.kind [
  | malloc_memory ↦ ok (
      if leb m.data_size new_size
      then record m {
        block = m.block + 1;
        bytes = λ _. 0;
        data_size = new_size;
        real_data_size = new_size;
      }
      else m)
  | mmap_memory ↦ if ltb m.data_size new_size then throw not_resizable else ok m
]

-- Grows by half of the old capacity beyond what is asked for.
unfoldable pub resize_to_fit : ℕ → Memory → Result Memory
resize_to_fit new_size m = elim m.kind [
  | malloc_memory ↦ ok (
      if leb m.real_data_size new_size
      then record m { block = m.block + 1; real_data_size = u64 (new_size + m.real_data_size / 2) }
      else m)
  | mmap_memory ↦ throw not_resizable
]

-- The result is the offset of the new bytes from `data()`. What they hold is not specified.
unfoldable pub grow : ℕ → Memory → Result (ℕ × Memory)
unfolding resize_to_fit
grow grow_by m = do
  r ← resize_to_fit (u64 (m.data_size + grow_by)) m
  ok (m.data_size, record r { data_size = u64 (m.data_size + grow_by) })
