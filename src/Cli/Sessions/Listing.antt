-- ===== src/Cli/Sessions/Listing.antt =====
-- The lines of `nat show` in cli.c against the entries of the table that are in use.
use burst_kernel_virtual_mac.Base.{
  ℕ, ◌+◌, ◌≡◌, ◌∙◌, refl, ap, ap₂, true, false, List, [], ◌∷◌, ◌++◌, arith, length, if◌then◌else◌,
  inl, inr, Bool-cases,
}
use burst_kernel_virtual_mac.Nat.{NatEntry}
use burst_kernel_virtual_mac.Console.{Output}
use burst_kernel_virtual_mac.Cli.Sessions.{nat_header, nat_row, nat_rows, nat_footer, nat_show}

-- The entries in use, in the order of the table.
abbrev pub live : List NatEntry → List NatEntry
live [] = []
live (e ∷ es) = if e.in_use then e ∷ live es else live es

pub live-used : (e : NatEntry) (es : List NatEntry) → e.in_use ≡ true → live (e ∷ es) ≡ e ∷ live es
live-used e es used = rw used refl

pub live-free : (e : NatEntry) (es : List NatEntry) → e.in_use ≡ false → live (e ∷ es) ≡ live es
live-free e es free = rw free refl

-- A line for each entry, numbered behind `k`.
abbrev pub numbered : ℕ → List NatEntry → List Output
numbered k [] = []
numbered k (e ∷ es) = nat_row (k + 1) e ++ numbered (k + 1) es

nat_rows-live :
    (es : List NatEntry) (k : ℕ) → nat_rows es k ≡ (numbered k (live es), k + length (live es))
unfolding nat_rows nat_row
nat_rows-live [] k = ap (λ n. ([], n)) (omega arith)
nat_rows-live (e ∷ es) k = elim (Bool-cases e.in_use) [
  | inl used ↦ rw used (
      ap₂ (λ o n. (nat_row (k + 1) e ++ o, n)) (ap (λ p. p.0) (nat_rows-live es (k + 1)))
        (ap (λ p. p.1) (nat_rows-live es (k + 1)) ∙ omega arith))
  | inr free ↦ rw free (nat_rows-live es k)
]

-- `nat show` prints a line for each entry in use, numbered from 1 in the order of the table, and their
-- number.
pub nat_show-live :
    (table : List NatEntry)
    → nat_show table ≡ nat_header ++ (numbered 0 (live table) ++ nat_footer (length (live table)))
unfolding nat_show
nat_show-live table =
    ap (λ p. nat_header ++ (p.0 ++ nat_footer p.1)) (nat_rows-live table 0)
    ∙ ap (λ n. nat_header ++ (numbered 0 (live table) ++ nat_footer n)) (omega arith)
