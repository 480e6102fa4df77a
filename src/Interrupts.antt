-- ===== src/Interrupts.antt =====
-- idt.c: the interrupt table and the interrupt controllers. The start of keyboard.c, and the clock of
-- kernel.c, belong here too. What `inb` answers is an argument.
pub mod Gates
pub mod Ticks
mod Tests
use burst_kernel_virtual_mac.Base.{
  ℕ, codes, zero, suc, ◌+◌, ◌-◌, ◌*◌, ◌/◌, ◌%◌, ◌^◌, List, [], ◌∷◌, ◌++◌, ltb, set, if◌then◌else◌,
}
use burst_kernel_virtual_mac.Console.{
  Output, puts, set_color, vga_black, vga_light_cyan, vga_yellow, vga_white,
}

-- `struct idt_entry`
pub record IdtEntry : Type 0 where
  pub offset_low : ℕ
  pub selector : ℕ
  pub ist : ℕ
  pub flags : ℕ
  pub offset_mid : ℕ
  pub offset_high : ℕ
  pub zero_field : ℕ

-- The entry for the handler at `base`.
unfoldable pub gate : ℕ → ℕ → ℕ → IdtEntry
gate base sel flags = record {
  offset_low = base % 2 ^ 16;
  selector = sel;
  ist = 0;
  flags = flags;
  offset_mid = base / 2 ^ 16 % 2 ^ 16;
  offset_high = base / 2 ^ 32 % 2 ^ 32;
  zero_field = 0;
}

unfoldable pub idt_set_gate : ℕ → ℕ → ℕ → ℕ → List IdtEntry → List IdtEntry
idt_set_gate num base sel flags idt = set idt num (gate base sel flags)

-- `outb` with its value, and `lidt` with the limit.
pub data IdtOp : Type 0 where
  outb : ℕ → ℕ → IdtOp
  lidt : ℕ → IdtOp

-- `v & ~(1 << n)` of a byte.
unfoldable pub clear_bit : ℕ → ℕ → ℕ
clear_bit n v = v / 2 ^ (n + 1) * 2 ^ (n + 1) + v % 2 ^ n

-- The controllers get their vectors, and all lines are masked.
abbrev pub remap : List IdtOp
remap =
    outb 0x20 0x11
    ∷ outb 0xA0 0x11
    ∷ outb 0x21 0x20
    ∷ outb 0xA1 0x28
    ∷ outb 0x21 0x04
    ∷ outb 0xA1 0x02
    ∷ outb 0x21 0x01
    ∷ outb 0xA1 0x01
    ∷ outb 0x21 0xFF
    ∷ outb 0xA1 0xFF
    ∷ []

-- The table, and what is written, in order; `inb` is read after the masks were set.
unfoldable pub idt_init : (ℕ → ℕ) → ℕ → ℕ → List IdtEntry → List IdtEntry × List IdtOp
idt_init inb isr1 isr11 idt = (
  idt_set_gate 43 isr11 0x08 0x8E (idt_set_gate 33 isr1 0x08 0x8E idt),
  remap
      ++ outb 0x21 (clear_bit 2 (inb 0x21))
        ∷ outb 0xA1 (clear_bit 3 (inb 0xA1))
        ∷ lidt (16 * 256 - 1)
        ∷ [],
)

-- `keyboard_init`: the prompt, and line 1 of the first controller. The arrow is three bytes of UTF-8.
unfoldable pub keyboard_init : (ℕ → ℕ) → List Output × List IdtOp
keyboard_init inb = (
  set_color vga_light_cyan vga_black
      ∷ puts (codes "nkernel main ")
      ∷ set_color vga_yellow vga_black
      ∷ puts (0xE2 ∷ 0x9D ∷ 0xAF ∷ b' ' ∷ [])
      ∷ set_color vga_white vga_black
      ∷ [],
  outb 0x21 (clear_bit 1 (inb 0x21)) ∷ [],
)

-- The two static variables of `sys_now`.
pub record Clock : Type 0 where
  pub ms : ℕ
  pub counter : ℕ

-- The clock after a call; the call answers its `ms`.
unfoldable pub sys_now : Clock → Clock
sys_now c =
    if ltb 10000 c.counter
    then record { ms = (c.ms + 10) % 2 ^ 32; counter = 0 }
    else record { ms = c.ms; counter = (c.counter + 1) % 2 ^ 32 }
