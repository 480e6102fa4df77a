-- ===== src/Driver/Init/Scan.antt =====
-- The scan of the PCI slots in e1000.c against the list of the slots with a card.
use burst_kernel_virtual_mac.Base.{
  ℕ, zero, suc, ◌+◌, ◌≡◌, ◌∙◌, refl, ap, sym, true, false, List, [], ◌∷◌, ◌++◌, arith, ltb, length,
  take, length-take, append_assoc, append_nil, if◌then◌else◌, inl, inr, Bool-cases,
}
use Prim.Native.Nat.{min}
use burst_kernel_virtual_mac.Driver.Init.{
  Devices, is_e1000, mmio_base, probe, scan_bus, scan_buses, find_all_e1000,
}

-- The cards on a bus, in the order of their slots.
unfoldable pub cards_on_bus : (ℕ → ℕ) → ℕ → ℕ → ℕ → List ℕ
cards_on_bus pci bus zero dev = []
cards_on_bus pci bus (suc left) dev =
    let rest = cards_on_bus pci bus left (dev + 1) in
    if is_e1000 pci bus dev then mmio_base pci bus dev ∷ rest else rest

-- The cards on the buses, bus by bus.
unfoldable pub cards : (ℕ → ℕ) → ℕ → ℕ → List ℕ
cards pci zero bus = []
cards pci (suc left) bus = cards_on_bus pci bus 32 0 ++ cards pci left (bus + 1)

take_more :
    (n : ℕ) (xs : List ℕ) (b : ℕ)
    → (if ltb (length (take n xs)) n then take n xs ++ b ∷ [] else take n xs)
      ≡ take n (xs ++ b ∷ [])
take_more zero xs b = refl
take_more (suc n) [] b =
    let one : ltb 0 (suc n) ≡ true = ground arith in rw one (ap (λ t. b ∷ t) (sym (take_nil n)))
  where
    take_nil : (m : ℕ) → take {A = ℕ} m [] ≡ []
    take_nil zero = refl
    take_nil (suc m) = refl
take_more (suc n) (x ∷ xs) b = elim (Bool-cases (ltb (length (take n xs)) n)) [
  | inl more ↦
      let more' : ltb (length (x ∷ take n xs)) (suc n) ≡ true = ground arith in
      rw more' (ap (λ t. x ∷ t) (rw more at (take_more n xs b)))
  | inr full ↦
      let full' : ltb (length (x ∷ take n xs)) (suc n) ≡ false = ground arith in
      rw full' (ap (λ t. x ∷ t) (rw full at (take_more n xs b)))
]

-- One slot, where the first four of the cards before it are known.
probe_lem :
    (pci : ℕ → ℕ) (bus dev : ℕ) (xs : List ℕ) (ds : Devices)
    → ds.mmio ≡ take 4 xs
    → (probe pci bus dev ds).mmio
      ≡ take 4 (xs ++ (if is_e1000 pci bus dev then mmio_base pci bus dev ∷ [] else []))
unfolding probe
probe_lem pci bus dev xs ds h = elim (Bool-cases (is_e1000 pci bus dev)) [
  | inl card ↦ rw (card, h) (take_more 4 xs (mmio_base pci bus dev))
  | inr other ↦ rw (other, append_nil xs) h
]

scan_bus_lem :
    (pci : ℕ → ℕ) (bus left dev : ℕ) (xs : List ℕ) (ds : Devices)
    → ds.mmio ≡ take 4 xs
    → (scan_bus pci bus left dev ds).mmio ≡ take 4 (xs ++ cards_on_bus pci bus left dev)
unfolding scan_bus cards_on_bus
scan_bus_lem pci bus zero dev xs ds h = rw (append_nil xs) h
scan_bus_lem pci bus (suc left) dev xs ds h = elim (Bool-cases (is_e1000 pci bus dev)) [
  | inl card ↦
      scan_bus_lem pci bus left (dev + 1) (xs ++ mmio_base pci bus dev ∷ []) (probe pci bus dev ds)
        (rw card at (probe_lem pci bus dev xs ds h))
      ∙ ap (take 4) (
          append_assoc xs (mmio_base pci bus dev ∷ []) (cards_on_bus pci bus left (dev + 1))
          ∙ rw card refl)
  | inr other ↦
      scan_bus_lem pci bus left (dev + 1) xs (probe pci bus dev ds)
        (rw (other, append_nil xs) at (probe_lem pci bus dev xs ds h))
      ∙ rw other refl
]

scan_buses_lem :
    (pci : ℕ → ℕ) (left bus : ℕ) (xs : List ℕ) (ds : Devices)
    → ds.mmio ≡ take 4 xs
    → (scan_buses pci left bus ds).mmio ≡ take 4 (xs ++ cards pci left bus)
unfolding scan_buses cards
scan_buses_lem pci zero bus xs ds h = rw (append_nil xs) h
scan_buses_lem pci (suc left) bus xs ds h =
    scan_buses_lem pci left (bus + 1) (xs ++ cards_on_bus pci bus 32 0) (scan_bus pci bus 32 0 ds)
      (scan_bus_lem pci bus 32 0 xs ds h)
    ∙ ap (take 4) (append_assoc xs (cards_on_bus pci bus 32 0) (cards pci left (bus + 1)))

pub find_all_e1000_lem : (pci : ℕ → ℕ) → (find_all_e1000 pci).mmio ≡ take 4 (cards pci 256 0)
unfolding find_all_e1000
find_all_e1000_lem pci = scan_buses_lem pci 256 0 [] (record { mmio = []; ops = [] }) refl

pub length-find_all_e1000 :
    (pci : ℕ → ℕ) → (length (find_all_e1000 pci).mmio ≡ min 4 (length (cards pci 256 0)))
length-find_all_e1000 pci = ap length (find_all_e1000_lem pci) ∙ length-take 4 (cards pci 256 0)
