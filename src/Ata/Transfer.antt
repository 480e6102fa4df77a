-- ===== src/Ata/Transfer.antt =====
-- Descriptions of a sector, and of what the port accesses of ata.c mean to a disk: the words
-- that they send and the values that they leave in its registers.
use burst_kernel_virtual_mac.Base.{
  ℕ, zero, suc, ◌+◌, ◌*◌, ◌/◌, ◌%◌, ◌^◌, ◌≤◌, ◌<◌, ◌≡◌, ◌∙◌, refl, ap, ap₂, sym, some, List, [],
  ◌∷◌, ◌++◌, arith, length, get_elem?, get_or, set, length-set, get_elem?-set_self,
  get_elem?-set_ne, get_elem?-eq-get_or, append_nil, ℕ_discrete,
}
use mathlib.Core.Option.{some-injective}
use burst_kernel_virtual_mac.Ata.{
  PortOp, outb, outw, select_sector, read_words, write_words, ata_read_sector, ata_write_sector,
  write_ops, wait_bsy, ata_command_port, ata_cmd_write_pio, ata_drive_port, ata_lba_low_port,
  ata_lba_mid_port, ata_lba_high_port,
}

abbrev pub IsSector : List ℕ → Type 0
IsSector buffer = (length buffer ≡ 512) × ((i : ℕ) → get_or buffer i 0 < 2 ^ 8)

-- The words that a run of accesses sends to the data port.
abbrev pub sent_words : List PortOp → List ℕ
sent_words [] = []
sent_words (outw port word ∷ ops) = word ∷ sent_words ops
sent_words (_ ∷ ops) = sent_words ops

-- The value that a run of accesses leaves in a port's register.
abbrev pub register : ℕ → ℕ → List PortOp → ℕ
register port v [] = v
register port v (outb p w ∷ ops) = elim (ℕ_discrete p port) [
  | yes e ↦ register port w ops
  | no n ↦ register port v ops
]
register port v (_ ∷ ops) = register port v ops

-- The registers that both transfers write hold the low 28 bits of the sector number: 8 each in
-- the three address registers, and 4 in the drive register.
pub select_sector-lba :
    (lba command : ℕ)
    → register ata_lba_low_port 0 (select_sector lba command)
        + register ata_lba_mid_port 0 (select_sector lba command) * 2 ^ 8
        + register ata_lba_high_port 0 (select_sector lba command) * 2 ^ 16
        + register ata_drive_port 0 (select_sector lba command) % 2 ^ 4 * 2 ^ 24
      ≡ lba % 2 ^ 28
unfolding select_sector ℕ_discrete
select_sector-lba lba command = omega arith

lo_byte : (a b : ℕ) → a < 2 ^ 8 → (a + b * 2 ^ 8) % 2 ^ 8 ≡ a
lo_byte a b h = omega arith

hi_byte : (a b : ℕ) → a < 2 ^ 8 → b < 2 ^ 8 → (a + b * 2 ^ 8) / 2 ^ 8 % 2 ^ 8 ≡ b
hi_byte a b h k = omega arith

-- After the words from `i` on, `n` of them, were read back: the bytes below `2 * (i + n)` that agreed, or
-- were read, agree.
read-write_words :
    (n i : ℕ) (buffer other : List ℕ)
    → IsSector buffer
    → length other ≡ 512
    → (i + n) * 2 ≤ 512
    → ((k : ℕ) → k < i * 2 → get_elem? other k ≡ get_elem? buffer k)
    → (k : ℕ) → k < (i + n) * 2
    → get_elem? (read_words (write_words n i buffer) i other) k ≡ get_elem? buffer k
unfolding read_words write_words
read-write_words zero i buffer other v l le agree k lt = agree k (omega arith)
read-write_words (suc n) i buffer other v l le agree k lt =
    read-write_words n (i + 1) buffer
      (set (set other (i * 2) ((lo + hi * 2 ^ 8) % 2 ^ 8)) (i * 2 + 1)
        ((lo + hi * 2 ^ 8) / 2 ^ 8 % 2 ^ 8))
      v (length-set (set other (i * 2) _) (i * 2 + 1) _ ∙ length-set other (i * 2) _ ∙ l)
      (omega arith) next k (omega arith)
  where
    lo : ℕ
    lo = get_or buffer (i * 2) 0

    hi : ℕ
    hi = get_or buffer (i * 2 + 1) 0

    next :
        (k : ℕ)
        → k < (i + 1) * 2
        → get_elem?
            (set
              (set other (i * 2) ((lo + hi * 2 ^ 8) % 2 ^ 8))
              (i * 2 + 1)
              ((lo + hi * 2 ^ 8) / 2 ^ 8 % 2 ^ 8))
            k
          ≡ get_elem? buffer k
    next k lt = elim (ℕ_discrete k (i * 2 + 1)) [
      | yes e ↦ rw e (
          get_elem?-set_self (set other (i * 2) _) (i * 2 + 1) _
            (omega (arith, length-set other (i * 2) ((lo + hi * 2 ^ 8) % 2 ^ 8)))
          ∙ ap some (hi_byte lo hi (v.1 (i * 2)) (v.1 (i * 2 + 1)))
          ∙ sym (get_elem?-eq-get_or buffer (i * 2 + 1) 0 (omega (arith, v.0))))
      | no ne ↦ elim (ℕ_discrete k (i * 2)) [
        | yes e ↦ rw e (
            get_elem?-set_ne (set other (i * 2) _) _ (λ q. omega arith)
            ∙ get_elem?-set_self other (i * 2) _ (omega arith)
            ∙ ap some (lo_byte lo hi (v.1 (i * 2)))
            ∙ sym (get_elem?-eq-get_or buffer (i * 2) 0 (omega (arith, v.0))))
        | no ne' ↦
            get_elem?-set_ne (set other (i * 2) _) _ (λ q. ne (sym q))
            ∙ get_elem?-set_ne other _ (λ q. ne' (sym q))
            ∙ agree k (omega arith)
      ]
    ]

pub length-read_words :
    (words : List ℕ) (i : ℕ) (buffer : List ℕ) → length (read_words words i buffer) ≡ length buffer
unfolding read_words
length-read_words [] i buffer = refl
length-read_words (word ∷ words) i buffer =
    length-read_words words (i + 1) _
    ∙ length-set (set buffer (i * 2) _) (i * 2 + 1) _
    ∙ length-set buffer (i * 2) _

list_ext :
    (xs ys : List ℕ)
    → length xs ≡ length ys
    → ((k : ℕ) → k < length xs → get_elem? xs k ≡ get_elem? ys k)
    → xs ≡ ys
list_ext [] [] l h = refl
list_ext [] (y ∷ ys) l h = absurd (omega arith)
list_ext (x ∷ xs) [] l h = absurd (omega arith)
list_ext (x ∷ xs) (y ∷ ys) l h =
    ap₂ (λ a b. a ∷ b) (some-injective _ _ (h 0 (omega arith)))
      (list_ext xs ys (omega arith) (λ k lt. h (suc k) (omega arith)))

sent-select :
    (lba command : ℕ) (ops : List PortOp)
    → sent_words (select_sector lba command ++ ops) ≡ sent_words ops
unfolding select_sector
sent-select lba command ops = refl

sent-write_ops :
    (words : List ℕ) (ops : List PortOp)
    → sent_words (write_ops words ++ ops) ≡ words ++ sent_words ops
sent-write_ops [] ops = refl
sent-write_ops (word ∷ words) ops = ap (λ t. word ∷ t) (sent-write_ops words ops)

-- The words that `ata_write_sector` sends to the data port for 512 bytes, read by
-- `ata_read_sector` into any buffer of 512, give the bytes back.
pub read-write_sector :
    (lba lba' : ℕ) (sector other : List ℕ)
    → IsSector sector
    → length other ≡ 512
    → (ata_read_sector lba' (sent_words (ata_write_sector lba sector)) other).1 ≡ sector
unfolding ata_read_sector ata_write_sector
read-write_sector lba lba' sector other v l =
    ap (λ words. read_words words 0 other) sent
    ∙ list_ext (read_words (write_words 256 0 sector) 0 other) sector
        (length-read_words (write_words 256 0 sector) 0 other ∙ l ∙ sym v.0)
        (λ k lt.
          read-write_words 256 0 sector other v l (omega arith) (λ k lt. absurd (omega arith)) k
            (omega (arith, length-read_words (write_words 256 0 sector) 0 other)))
  where
    words : List ℕ
    words = write_words 256 0 sector

    flush : List PortOp
    flush = outb ata_command_port 0xEA ∷ wait_bsy ∷ []

    sent : sent_words (ata_write_sector lba sector) ≡ write_words 256 0 sector
    sent =
        sent-select lba ata_cmd_write_pio (write_ops words ++ flush)
        ∙ sent-write_ops words flush
        ∙ append_nil words
