-- ===== src/Interrupts/Tests.antt =====
-- The table with two handlers, and some calls of the clock.
use burst_kernel_virtual_mac.Base.{◌≡◌, ◌*◌, ◌/◌, ◌%◌, ◌^◌, List, arith, refl, replicate, get_elem?}
use burst_kernel_virtual_mac.Interrupts.{IdtEntry, idt_init}
use burst_kernel_virtual_mac.Interrupts.Gates.{LeadsTo, idt_init-LeadsTo}
use burst_kernel_virtual_mac.Interrupts.Ticks.{after_calls, after_calls_lem}

abbrev absent : IdtEntry
absent = record {
  offset_low = 0;
  selector = 0;
  ist = 0;
  flags = 0;
  offset_mid = 0;
  offset_high = 0;
  zero_field = 0;
}

abbrev empty_idt : List IdtEntry
empty_idt = replicate 256 absent

idt_init-LeadsTo_example :
    LeadsTo 0x12345678 (idt_init (λ port. 255) 0x12345678 0x123456789ABC empty_idt).0 33
    × LeadsTo 0x123456789ABC (idt_init (λ port. 255) 0x12345678 0x123456789ABC empty_idt).0 43
    × (get_elem? (idt_init (λ port. 255) 0x12345678 0x123456789ABC empty_idt).0 14
        ≡ get_elem? empty_idt 14)
idt_init-LeadsTo_example =
    idt_init-LeadsTo (λ port. 255) 0x12345678 0x123456789ABC 14 empty_idt refl (omega arith)
      (omega arith) (omega arith) (omega arith)

after_calls_lem_example :
    ((after_calls 20004).ms ≡ 10 * (20004 / 10002) % 2 ^ 32)
    × ((after_calls 20004).counter ≡ 20004 % 10002)
after_calls_lem_example = after_calls_lem 20004
