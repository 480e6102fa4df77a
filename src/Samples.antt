-- ===== src/Samples.antt =====
-- Frames and arrays that the modules' tests share.
use burst_kernel_virtual_mac.Base.{
  ℕ, zero, suc, ◌≡◌, refl, Bool, true, ◌&&◌, List, [], ◌∷◌, arith, ltb, get_or,
}
use burst_kernel_virtual_mac.Packet.{Buffer}
use burst_kernel_virtual_mac.Checksum.Words.{IsBytes}

-- A receive buffer that begins with the given bytes.
abbrev pub of_list : List ℕ → Buffer
of_list xs = record { size = 2048; at = λ i. get_or xs i 0 }

abbrev pub all_bytes : List ℕ → Bool
all_bytes [] = true
all_bytes (x ∷ xs) = ltb x 256 && all_bytes xs

pub of_list-IsBytes : (xs : List ℕ) → all_bytes xs ≡ true → IsBytes (of_list xs).at
of_list-IsBytes [] h i = omega arith
of_list-IsBytes (x ∷ xs) h zero = ground arith
of_list-IsBytes (x ∷ xs) h (suc i) = of_list-IsBytes xs (ground arith) i

-- TCP from 192.168.1.2:4660 to 8.8.8.8:80.
abbrev pub outward : List ℕ
outward =
    0x52 ∷ 0x54 ∷ 0 ∷ 0x12 ∷ 0x34 ∷ 0x57 ∷ 0x52 ∷ 0x54 ∷ 0 ∷ 0x12 ∷ 0x34 ∷ 0x99 ∷ 0x08 ∷ 0 ∷ 0x45
    ∷ 0 ∷ 0 ∷ 0x28 ∷ 0 ∷ 1 ∷ 0x40 ∷ 0 ∷ 64 ∷ 6 ∷ 0x69 ∷ 0x1A ∷ 192 ∷ 168 ∷ 1 ∷ 2 ∷ 8 ∷ 8 ∷ 8 ∷ 8
    ∷ 0x12 ∷ 0x34 ∷ 0 ∷ 80 ∷ 0 ∷ 0 ∷ 0 ∷ 1 ∷ 0 ∷ 0 ∷ 0 ∷ 0 ∷ 0x50 ∷ 2 ∷ 0x20 ∷ 0 ∷ 0xAB ∷ 0xCD ∷ []

-- The reply of 8.8.8.8:80 to 10.0.2.15:50000.
abbrev pub inward : List ℕ
inward =
    0x52 ∷ 0x54 ∷ 0 ∷ 0x12 ∷ 0x34 ∷ 0x56 ∷ 0x52 ∷ 0x54 ∷ 0 ∷ 0x12 ∷ 0x34 ∷ 0x11 ∷ 0x08 ∷ 0 ∷ 0x45
    ∷ 0 ∷ 0 ∷ 0x28 ∷ 0 ∷ 1 ∷ 0x40 ∷ 0 ∷ 64 ∷ 6 ∷ 0x1E ∷ 0xB6 ∷ 8 ∷ 8 ∷ 8 ∷ 8 ∷ 10 ∷ 0 ∷ 2 ∷ 15 ∷ 0
    ∷ 80 ∷ 0xC3 ∷ 0x50 ∷ 0 ∷ 0 ∷ 0 ∷ 1 ∷ 0 ∷ 0 ∷ 0 ∷ 2 ∷ 0x50 ∷ 0x12 ∷ 0x20 ∷ 0 ∷ 0xDC ∷ 0xBA ∷ []

pub outward-IsBytes : IsBytes (of_list outward).at
outward-IsBytes = of_list-IsBytes outward refl

pub inward-IsBytes : IsBytes (of_list inward).at
inward-IsBytes = of_list-IsBytes inward refl
