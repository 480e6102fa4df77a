-- ===== src/Heap/Bounds.antt =====
-- `kmalloc` of mm.c: where blocks lie in the heap, in a run of requests, and sizes near 2^64.
use burst_kernel_virtual_mac.Base.{
  ℕ, ◌+◌, ◌-◌, ◌%◌, ◌^◌, ◌≤◌, ◌<◌, ◌≡◌, ◌⊎◌, List, [], ◌∷◌, none, some, arith, inl, inr, dec_lt,
  refl, ap, ◌∙◌,
}
use burst_kernel_virtual_mac.Heap.{heap_size, align16, kmalloc}

-- The largest request that the size computation takes without a wrap of `size_t`.
abbrev pub max_request : ℕ
max_request = 2 ^ 64 - 2 ^ 24 - 16

-- Where `heap_offset` may stand.
abbrev pub IsOffset : ℕ → Type 0
IsOffset offset = (offset ≤ heap_size) × (offset % 16 ≡ 0)

-- For a request of at most 2^64 - 2^24 - 16 bytes, from an aligned offset in the heap,
-- `kmalloc` either gives out the block at that offset and moves the offset behind it, by less
-- than 16 bytes more than was asked for, to an aligned offset in the heap; or it gives nothing
-- and changes nothing, which it does only where the request with up to 15 bytes of padding
-- exceeds the heap.
pub kmalloc_lem :
    (size offset : ℕ)
    → IsOffset offset
    → size ≤ max_request
    → ((kmalloc size offset ≡ (none, offset)) × (heap_size < offset + size + 15))
      ⊎ ((next : ℕ) × (kmalloc size offset ≡ (some offset, next))
          × IsOffset next
          × (offset + size ≤ next)
          × (next < offset + size + 16))
unfolding kmalloc
kmalloc_lem size offset v fits = elim (dec_lt heap_size (offset + align16 size)) [
  | yes over ↦ inl (ground arith, ground arith)
  | no within ↦ inr (offset + align16 size, ground arith, ground arith, ground arith, ground arith)
]

-- A run of requests: the blocks that were given out, as an offset and a size, oldest first.
unfoldable pub allocate : List ℕ → ℕ → List (ℕ × ℕ)
allocate [] offset = []
allocate (size ∷ sizes) offset = elim (kmalloc size offset).0 [
  | none ↦ allocate sizes (kmalloc size offset).1
  | some p ↦ (p, size) ∷ allocate sizes (kmalloc size offset).1
]

-- Blocks in the heap from `lo` on, each behind the one before.
abbrev pub IsChain : ℕ → List (ℕ × ℕ) → Type 0
IsChain lo [] = Unit
IsChain lo ((p, size) ∷ blocks) =
    (lo ≤ p) × (p + size ≤ heap_size) × (p % 16 ≡ 0) × IsChain (p + size) blocks

abbrev pub AllFit : List ℕ → Type 0
AllFit [] = Unit
AllFit (size ∷ sizes) = (size ≤ max_request) × AllFit sizes

IsChain-mono :
    (lo lo' : ℕ) (blocks : List (ℕ × ℕ)) → lo' ≤ lo → IsChain lo blocks → IsChain lo' blocks
IsChain-mono lo lo' [] le h = tt
IsChain-mono lo lo' ((p, size) ∷ blocks) le h = (omega arith, h.1, h.2, h.3)

-- For requests of at most 2^64 - 2^24 - 16 bytes each, from an aligned offset in the heap on,
-- the blocks that `kmalloc` gives out are aligned to 16 bytes, lie in the heap, and do not
-- overlap.
pub allocate-IsChain :
    (sizes : List ℕ) (offset : ℕ)
    → AllFit sizes
    → IsOffset offset
    → IsChain offset (allocate sizes offset)
unfolding allocate
allocate-IsChain [] offset fit v = tt
allocate-IsChain (size ∷ sizes) offset fit v = elim (kmalloc_lem size offset v fit.0) [
  | inl refused ↦
      rw (refused.0, allocate, IsChain) (rw (refused.0) (allocate-IsChain sizes offset fit.1 v))
  | inr (next, e, v', le, lt) ↦
      rw (e, allocate, IsChain)
        (
          omega arith,
          omega arith,
          v.1,
          rw e (
              IsChain-mono next (offset + size) (allocate sizes next) le
                (allocate-IsChain sizes next fit.1 v')),
        )
]

kmalloc_granted :
    (size offset : ℕ)
    → size ≤ max_request
    → offset + align16 size ≤ heap_size
    → kmalloc size offset ≡ (some offset, offset + align16 size)
unfolding kmalloc
kmalloc_granted size offset fits room = ground arith

-- A request of almost 2^64 bytes is granted, and moves the offset back.
kmalloc_back :
    (offset back : ℕ)
    → offset + back ≤ heap_size
    → 0 < back
    → back % 16 ≡ 0
    → kmalloc (2 ^ 64 - back) (offset + back) ≡ (some (offset + back), offset)
unfolding kmalloc
kmalloc_back offset back room pos aligned = ground arith

allocate-cons :
    (size : ℕ) (sizes : List ℕ) (offset p next : ℕ)
    → kmalloc size offset ≡ (some p, next)
    → allocate (size ∷ sizes) offset ≡ (p, size) ∷ allocate sizes next
unfolding allocate
allocate-cons size sizes offset p next e = rw (e, allocate) (rw e refl)

-- From an aligned offset in the heap, let a request that is not empty and that fits be followed
-- by one of 2^64 bytes less those of the block that it got, and then by the first request
-- again. All three are granted, and the last one gets the very block of the first.
pub kmalloc_wraps :
    (size offset : ℕ)
    → IsOffset offset
    → 0 < size
    → size ≤ max_request
    → offset + align16 size ≤ heap_size
    → allocate (size ∷ (2 ^ 64 - align16 size) ∷ size ∷ []) offset
      ≡ (offset, size) ∷ (offset + align16 size, 2 ^ 64 - align16 size) ∷ (offset, size) ∷ []
kmalloc_wraps size offset v pos fits room =
    let whole : align16 size % 16 ≡ 0 = unfold align16 in omega arith in
    let some_bytes : 0 < align16 size = unfold align16 in omega arith in
    let none_left : allocate [] (offset + align16 size) ≡ [] = unfold allocate in refl in
    let first = kmalloc_granted size offset fits room in
    allocate-cons size _ offset offset _ first
    ∙ ap (λ t. (offset, size) ∷ t)
        (allocate-cons (2 ^ 64 - align16 size) (size ∷ []) _ _ _
            (kmalloc_back offset (align16 size) room some_bytes whole)
          ∙ ap (λ t. (offset + align16 size, 2 ^ 64 - align16 size) ∷ t)
              (allocate-cons size [] offset offset _ first
                ∙ ap (λ t. (offset, size) ∷ t) none_left))
