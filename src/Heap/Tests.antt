-- ===== src/Heap/Tests.antt =====
-- Runs of the allocator.
use burst_kernel_virtual_mac.Base.{◌+◌, ◌-◌, ◌^◌, ◌≡◌, refl, [], ◌∷◌, arith}
use burst_kernel_virtual_mac.Heap.{align16}
use burst_kernel_virtual_mac.Heap.Bounds.{
  IsOffset, allocate, IsChain, allocate-IsChain, kmalloc_wraps,
}

start : IsOffset 4096
start = (omega arith, refl)

allocate-IsChain_example : IsChain 4096 (allocate (512 ∷ 2048 ∷ 17000000 ∷ 3 ∷ []) 4096)
allocate-IsChain_example =
    allocate-IsChain (512 ∷ 2048 ∷ 17000000 ∷ 3 ∷ []) 4096
      (omega arith, (omega arith, (omega arith, (omega arith, tt)))) start

kmalloc_wraps_example :
    allocate (100 ∷ (2 ^ 64 - align16 100) ∷ 100 ∷ []) 4096
    ≡ (4096, 100) ∷ (4096 + align16 100, 2 ^ 64 - align16 100) ∷ (4096, 100) ∷ []
kmalloc_wraps_example =
    kmalloc_wraps 100 4096 start (omega arith) (omega arith) (unfold align16 in omega arith)
