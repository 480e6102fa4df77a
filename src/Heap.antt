-- ===== src/Heap.antt =====
-- mm.c: the bump allocator. A pointer into `heap` is an offset, and `size_t` has 64 bits.
pub mod Bounds
mod Tests
use burst_kernel_virtual_mac.Base.{
  ℕ, ◌+◌, ◌*◌, ◌/◌, ◌%◌, ◌^◌, Option, none, some, ltb, if◌then◌else◌,
}

abbrev pub heap_size : ℕ
heap_size = 1024 * 1024 * 16

-- `heap_offset` after `mm_init`.
unfoldable pub mm_init : ℕ
mm_init = 0

-- `(size + 15) & ~15`: the sum wraps, and the mask clears the low 4 bits.
unfoldable pub align16 : ℕ → ℕ
align16 size = (size + 15) % 2 ^ 64 / 16 * 16

-- The pointer, if there is one, and `heap_offset` after the call.
unfoldable pub kmalloc : ℕ → ℕ → Option ℕ × ℕ
unfolding align16
kmalloc size heap_offset =
    let aligned = align16 size in
    let end_offset = (heap_offset + aligned) % 2 ^ 64 in
    if ltb heap_size end_offset then (none, heap_offset) else (some heap_offset, end_offset)

-- `kfree` keeps no books.
unfoldable pub kfree : ℕ → ℕ → ℕ
kfree ptr heap_offset = heap_offset
