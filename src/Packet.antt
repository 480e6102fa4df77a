-- ===== src/Packet.antt =====
-- Bytes in memory: the receive buffer that nat.c and kernel.c read and rewrite through casts such
-- as `*(uint16_t *)(pkt + 24)`. x86 is little-endian: the byte at the lower address is the low one.
use burst_kernel_virtual_mac.Base.{
  ℕ, ◌+◌, ◌≤◌, ◌⊎◌, ◌∙◌, ◌*◌, ◌/◌, ◌%◌, ◌^◌, ◌<◌, ◌≡◌, Option, none, some, arith, ltb, ◌==◌,
  if◌then◌else◌, ◌>>=◌,
}

-- An array of `size` bytes; what `at` says from `size` on is never read.
pub record Buffer : Type 0 where
  pub size : ℕ
  pub at : ℕ → ℕ

abbrev pub update : (ℕ → ℕ) → ℕ → ℕ → ℕ → ℕ
update f i v j = if i == j then v else f j

-- `*(uint8_t *)(pkt + i)`; a read outside the array is a fault.
unfoldable pub load8 : Buffer → ℕ → Option ℕ
load8 b i = if ltb i b.size then some (b.at i) else none

unfoldable pub store8 : Buffer → ℕ → ℕ → Option Buffer
store8 b i v = if ltb i b.size then some (record b { at = update b.at i (v % 2 ^ 8) }) else none

-- `*(uint16_t *)(pkt + i)`
unfoldable pub load16 : Buffer → ℕ → Option ℕ
load16 b i = do lo ← load8 b i; hi ← load8 b (i + 1); some (lo + 2 ^ 8 * hi)

unfoldable pub store16 : Buffer → ℕ → ℕ → Option Buffer
store16 b i v = do c ← store8 b i v; store8 c (i + 1) (v / 2 ^ 8)

-- `*(uint32_t *)(pkt + i)`
unfoldable pub load32 : Buffer → ℕ → Option ℕ
load32 b i = do lo ← load16 b i; hi ← load16 b (i + 2); some (lo + 2 ^ 16 * hi)

unfoldable pub store32 : Buffer → ℕ → ℕ → Option Buffer
store32 b i v = do c ← store16 b i v; store16 c (i + 2) (v / 2 ^ 16)

-- The values that in-range loads return, and the arrays that in-range stores leave.
abbrev pub word16 : (ℕ → ℕ) → ℕ → ℕ
word16 f i = f i + 2 ^ 8 * f (i + 1)

abbrev pub word32 : (ℕ → ℕ) → ℕ → ℕ
word32 f i = word16 f i + 2 ^ 16 * word16 f (i + 2)

abbrev pub put16 : (ℕ → ℕ) → ℕ → ℕ → ℕ → ℕ
put16 f i v = update (update f i (v % 2 ^ 8)) (i + 1) (v / 2 ^ 8 % 2 ^ 8)

abbrev pub put32 : (ℕ → ℕ) → ℕ → ℕ → ℕ → ℕ
put32 f i v = put16 (put16 f i v) (i + 2) (v / 2 ^ 16)

pub load8_lem : (b : Buffer) (i : ℕ) → i < b.size → load8 b i ≡ some (b.at i)
unfolding load8
load8_lem b i h = ground arith

pub load16_lem : (b : Buffer) (i : ℕ) → i + 1 < b.size → load16 b i ≡ some (word16 b.at i)
unfolding load16 load8
load16_lem b i h = ground arith

pub load32_lem : (b : Buffer) (i : ℕ) → i + 3 < b.size → load32 b i ≡ some (word32 b.at i)
unfolding load32
load32_lem b i h = ground (arith, load16_lem b i, load16_lem b (i + 2))

pub store8_lem :
    (b : Buffer) (i v : ℕ)
    → i < b.size
    → store8 b i v ≡ some (record b { at = update b.at i (v % 2 ^ 8) })
unfolding store8
store8_lem b i v h = ground arith

pub store16_lem :
    (b : Buffer) (i v : ℕ)
    → i + 1 < b.size
    → store16 b i v ≡ some (record b { at = put16 b.at i v })
unfolding store16 store8
store16_lem b i v h = ground arith

pub store32_lem :
    (b : Buffer) (i v : ℕ)
    → i + 3 < b.size
    → store32 b i v ≡ some (record b { at = put32 b.at i v })
unfolding store32
store32_lem b i v h = rw (
  store16_lem b i v (omega arith),
  store16_lem (record b { at = put16 b.at i v }) (i + 2) (v / 2 ^ 16) (omega arith),
)

-- A store changes the bytes that it stores, and a load of these gives the value back.
pub put16_frame : (f : ℕ → ℕ) (q v i : ℕ) → (i < q) ⊎ (q + 2 ≤ i) → put16 f q v i ≡ f i
put16_frame f q v i h = ground arith

pub put32_frame : (f : ℕ → ℕ) (q v i : ℕ) → (i < q) ⊎ (q + 4 ≤ i) → put32 f q v i ≡ f i
put32_frame f q v i h =
    put16_frame (put16 f q v) (q + 2) (v / 2 ^ 16) i (omega arith)
    ∙ put16_frame f q v i (omega arith)

pub word16-put16 : (f : ℕ → ℕ) (q v : ℕ) → word16 (put16 f q v) q ≡ v % 2 ^ 16
word16-put16 f q v = ground arith

pub word32-put32 : (f : ℕ → ℕ) (q v : ℕ) → word32 (put32 f q v) q ≡ v % 2 ^ 32
word32-put32 f q v = omega (
  arith,
  word16-put16 f q v,
  word16-put16 (put16 f q v) (q + 2) (v / 2 ^ 16),
  put16_frame (put16 f q v) (q + 2) (v / 2 ^ 16) q (omega arith),
  put16_frame (put16 f q v) (q + 2) (v / 2 ^ 16) (q + 1) (omega arith),
)
