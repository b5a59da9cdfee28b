-- ===== src/Memory/Laws.antt =====
-- Growth keeps what was written, and the data within the capacity.
use axon_cache.Prelude.{
  ℕ, ◌+◌, ◌/◌, ◌^◌, ◌≤◌, ◌<◌, ◌≡◌, refl, ok, leb, u64, if◌then◌else◌, Returns, max, arith,
}
use axon_cache.Memory.{Memory, malloc_memory, grow}

-- A heap block that holds its data, with sizes far from the end of the address space.
pub record IsHeap (m : Memory) : Type 0 where
  pub heap : m.kind ≡ malloc_memory
  pub fits : m.data_size ≤ m.real_data_size

-- What `grow` leaves: the old bytes, the old size as the offset, and the larger size.
pub record Grown (m : Memory) (n : ℕ) (r : ℕ × Memory) : Type 0 where
  pub offset : r.0 ≡ m.data_size
  pub kept : r.1.bytes ≡ m.bytes
  pub size : r.1.data_size ≡ m.data_size + n
  pub valid : IsHeap r.1
  pub capacity : r.1.real_data_size ≤ max m.real_data_size (m.data_size + n + m.real_data_size / 2)
  pub same_block : m.data_size + n < m.real_data_size → r.1.block ≡ m.block
  pub moved : m.real_data_size ≤ m.data_size + n → r.1.block ≡ m.block + 1

-- On a heap block whose new capacity does not wrap around, `grow` returns the old size as an
-- offset, keeps every byte, adds exactly the bytes asked for, keeps the data within the capacity,
-- makes the capacity at most the larger of the old one and the new size plus half of the old one,
-- and moves the block exactly when the new size reaches the old capacity.
pub grow-Grown :
    (m : Memory) (n : ℕ)
    → IsHeap m
    → m.data_size + n + m.real_data_size / 2 < 2 ^ 64
    → Returns (grow n m) (Grown m n)
unfolding grow
grow-Grown m n v h = (
  (m.data_size, grown),
  grow_eq,
  record {
    offset = refl;
    kept = ground arith;
    size = ground arith;
    valid = record { heap = ground arith; fits = ground arith };
    capacity = ground arith;
    same_block = ground arith;
    moved = ground arith;
  },
)
  where
    resized : Memory
    resized =
        if leb m.real_data_size (u64 (m.data_size + n))
        then record m {
          block = m.block + 1;
          real_data_size = u64 (u64 (m.data_size + n) + m.real_data_size / 2);
        }
        else m

    grown : Memory
    grown = record resized { data_size = u64 (m.data_size + n) }

    grow_eq : grow n m ≡ ok (m.data_size, grown)
    grow_eq = ground (arith, v.heap)
