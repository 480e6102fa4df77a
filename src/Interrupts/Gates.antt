-- ===== src/Interrupts/Gates.antt =====
-- The entries of the interrupt table of idt.c, as the processor reads them.
use burst_kernel_virtual_mac.Base.{
  ℕ, ◌+◌, ◌*◌, ◌^◌, ◌<◌, ◌≡◌, ◌≢◌, ◌∙◌, refl, sym, some, List, arith, length, get_elem?, set,
  length-set, get_elem?-set_self, get_elem?-set_ne,
}
use burst_kernel_virtual_mac.Interrupts.{IdtEntry, gate, idt_set_gate, idt_init}

-- The address of the handler.
unfoldable pub handler : IdtEntry → ℕ
handler e = e.offset_low + 2 ^ 16 * e.offset_mid + 2 ^ 32 * e.offset_high

handler-gate : (base sel flags : ℕ) → base < 2 ^ 64 → handler (gate base sel flags) ≡ base
unfolding handler gate
handler-gate base sel flags lt = omega arith

-- The entry is present, in ring 0, and leads to `base` as an interrupt gate of the code segment 8.
pub record LeadsTo (base : ℕ) (idt : List IdtEntry) (num : ℕ) : Type 0 where
  pub entry : IdtEntry
  pub there : get_elem? idt num ≡ some entry
  pub base_is : handler entry ≡ base
  pub selector : entry.selector ≡ 8
  pub flags : entry.flags ≡ 128 + 14
  pub reserved : (entry.ist ≡ 0) × (entry.zero_field ≡ 0)

gate-LeadsTo :
    (base num : ℕ) (idt : List IdtEntry)
    → base < 2 ^ 64
    → get_elem? idt num ≡ some (gate base 8 142)
    → LeadsTo base idt num
unfolding gate
gate-LeadsTo base num idt lt h = record {
  entry = gate base 8 142;
  there = h;
  base_is = handler-gate base 8 142 lt;
  selector = refl;
  flags = refl;
  reserved = (refl, refl);
}

-- In a table of 256 entries, for handlers below 2^64, `idt_init` makes entries 33 and 43
-- present interrupt gates of segment 8, whose three parts of an address give the two handlers
-- back, and leaves every other entry.
pub idt_init-LeadsTo :
    (inb : ℕ → ℕ) (isr1 isr11 num : ℕ) (idt : List IdtEntry)
    → length idt ≡ 256
    → isr1 < 2 ^ 64
    → isr11 < 2 ^ 64
    → num ≢ 33
    → num ≢ 43
    → LeadsTo isr1 (idt_init inb isr1 isr11 idt).0 33
      × LeadsTo isr11 (idt_init inb isr1 isr11 idt).0 43
      × (get_elem? (idt_init inb isr1 isr11 idt).0 num ≡ get_elem? idt num)
unfolding idt_init idt_set_gate
idt_init-LeadsTo inb isr1 isr11 num idt size lt1 lt11 ne33 ne43 =
    let idt1 = set idt 33 (gate isr1 8 142) in
    (
      gate-LeadsTo isr1 33 (set idt1 43 (gate isr11 8 142)) lt1 (
          get_elem?-set_ne idt1 (gate isr11 8 142) (ground arith)
          ∙ get_elem?-set_self idt 33 (gate isr1 8 142) (omega (arith, size))),
      gate-LeadsTo isr11 43 (set idt1 43 (gate isr11 8 142)) lt11 (
          get_elem?-set_self idt1 43 (gate isr11 8 142)
            (omega (arith, size, length-set idt 33 (gate isr1 8 142)))),
      get_elem?-set_ne idt1 (gate isr11 8 142) (λ e. ne43 (sym e))
          ∙ get_elem?-set_ne idt (gate isr1 8 142) (λ e. ne33 (sym e)),
    )
