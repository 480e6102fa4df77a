-- ===== src/Libc/Copy.antt =====
-- `memcpy`, `memmove` and `memset` of libc.c against what the C standard says of them.
use burst_kernel_virtual_mac.Base.{
  ℕ, zero, suc, ◌+◌, ◌-◌, ◌%◌, ◌^◌, ◌≤◌, ◌≡◌, ◌⊎◌, inl, inr, ◌∙◌, arith, ltb, leb, ◌&&◌,
  if◌then◌else◌, Bool-cases,
}
use burst_kernel_virtual_mac.Packet.{update}
use burst_kernel_virtual_mac.Libc.{Memory, copy_up, copy_down, memcpy, memmove, memset}

-- Memory with the `n` bytes from `src` on copied to `dest`, all read before any is written.
abbrev pub copied : ℕ → ℕ → ℕ → Memory → Memory
copied dest src n m i = if leb dest i && ltb i (dest + n) then m (src + (i - dest)) else m i

-- Upwards is safe where the destination does not begin inside the source.
copy_up_lem :
    (d s n : ℕ) (m : Memory) (i : ℕ) → (d ≤ s) ⊎ (s + n ≤ d) → copy_up d s n m i ≡ copied d s n m i
unfolding copy_up
copy_up_lem d s zero m i h = ground arith
copy_up_lem d s (suc n) m i h =
    ground (arith, copy_up_lem (d + 1) (s + 1) n (update m d (m s)) i (omega arith))

copy_down_lem : (d s n : ℕ) (m : Memory) (i : ℕ) → s ≤ d → copy_down d s n m i ≡ copied d s n m i
unfolding copy_down
copy_down_lem d s zero m i h = ground arith
copy_down_lem d s (suc n) m i h =
    ground (arith, copy_down_lem d s n (update m (d + n) (m (s + n))) i h)

-- `memmove` copies as if through a third buffer, however the two stretches overlap, and changes
-- nothing else.
pub memmove-copied :
    (dest src n : ℕ) (m : Memory) (i : ℕ) → memmove dest src n m i ≡ copied dest src n m i
unfolding memmove
memmove-copied dest src n m i = elim (Bool-cases (ltb dest src)) [
  | inl below ↦ rw below (copy_up_lem dest src n m i (inl (ground arith)))
  | inr above ↦ rw above (copy_down_lem dest src n m i (ground arith))
]

-- `memcpy` copies as if through a third buffer, and changes nothing else, if the destination
-- does not begin behind the start of the source and inside it.
pub memcpy-copied :
    (dest src n : ℕ) (m : Memory) (i : ℕ)
    → (dest ≤ src) ⊎ (src + n ≤ dest)
    → memcpy dest src n m i ≡ copied dest src n m i
unfolding memcpy
memcpy-copied dest src n m i h = copy_up_lem dest src n m i h

-- `memset` fills its stretch with the low byte of its argument, and changes nothing else.
pub memset_lem :
    (s c n : ℕ) (m : Memory) (i : ℕ)
    → memset s c n m i ≡ (if leb s i && ltb i (s + n) then c % 2 ^ 8 else m i)
unfolding memset
memset_lem s c zero m i = ground arith
memset_lem s c (suc n) m i = memset_lem (s + 1) c n (update m s (c % 2 ^ 8)) i ∙ ground arith
