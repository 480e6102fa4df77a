-- ===== src/Driver/Interrupt.antt =====
-- `e1000_handle_interrupt` of e1000.c, alone and in the middle of `e1000_poll`. The handler runs with
-- interrupts off, `e1000_poll` with interrupts on: an interrupt may come between any two of its lines.
use burst_kernel_virtual_mac.Base.{
  ℕ, zero, suc, ◌+◌, ◌%◌, ◌≡◌, ◌∙◌, refl, ap, true, false, Option, some, List, [], ◌∷◌, ◌++◌, ◌>>=◌,
  arith, length, get_elem?, set, map, inl, inr, Bool-cases, Option-cases, none, if◌then◌else◌,
  get_elem?-set_self, get_elem?_lt,
}
use mathlib.Core.Option
use mathlib.Core.Option.{some-injective}
use burst_kernel_virtual_mac.Driver.{
  RxDesc, Device, e1000_rx_ring_size, is_ready, take_frame, receive_loop, e1000_poll,
}
use burst_kernel_virtual_mac.Driver.Receive.{
  IsRing, AllRings, AllDrained, all_ready, e1000_poll-returns, one-in_order, ready, ready-le,
  ready-set, taken-IsRing, receive_loop-Received,
}

-- A read of the interrupt causes of a device, and a port write.
pub data IrqOp : Type 0 where
  read_icr : ℕ → IrqOp
  outb : ℕ → ℕ → IrqOp

-- The receive loop of the handler, on fuel: the frames for the callback, and the device.
unfoldable pub handle_ring : ℕ → Device → Option (List (ℕ × ℕ) × Device)
handle_ring zero dev = none
handle_ring (suc fuel) dev = do
  d ← get_elem? dev.rx_ring dev.rx_cur
  let handled : Option (List (ℕ × ℕ) × Device) = do
    (frames, dev') ← handle_ring fuel (record {
      rx_ring = set dev.rx_ring dev.rx_cur (record { addr = d.addr; len = d.len; status = 0 });
      tx_ring = dev.tx_ring;
      rx_cur = (dev.rx_cur + 1) % e1000_rx_ring_size;
      tx_cur = dev.tx_cur;
      rdt = dev.rx_cur;
      tdt = dev.tdt;
    })
    some ((d.addr, d.len) ∷ frames, dev')
  if is_ready d then handled else some ([], dev)

-- The loop over the devices, from number `idx` on: the frames for the callback, the devices, and the reads.
unfoldable pub handle_devices :
    ℕ → List Device → Option (List (ℕ × (ℕ × ℕ)) × List Device × List IrqOp)
handle_devices idx [] = some ([], [], [])
handle_devices idx (dev ∷ devs) = do
  (frames, dev') ← handle_ring 33 dev
  (later, devs', ops) ← handle_devices (idx + 1) devs
  some (map (λ f. (idx, f)) frames ++ later, dev' ∷ devs', read_icr idx ∷ ops)

-- "Send EOI to PICs": the second controller first.
unfoldable pub e1000_handle_interrupt :
    List Device → Option (List (ℕ × (ℕ × ℕ)) × List Device × List IrqOp)
e1000_handle_interrupt devs = do
  (frames, devs', ops) ← handle_devices 0 devs
  some (frames, devs', ops ++ outb 0xA0 0x20 ∷ outb 0x20 0x20 ∷ [])

-- The reads of `left` devices from number `idx` on.
abbrev pub reads : ℕ → ℕ → List IrqOp
reads idx zero = []
reads idx (suc left) = read_icr idx ∷ reads (idx + 1) left

-- What the two functions have in common, and where they leave the devices.
pub record SameFrames (idx : ℕ) (devs : List Device) (ops : List IrqOp)
    (o : Option (List (ℕ × (ℕ × ℕ)) × List Device × List IrqOp)) : Type 0 where
  pub frames : List (ℕ × (ℕ × ℕ))
  pub devs' : List Device
  pub handled : o ≡ some (frames, devs', ops)
  pub polled : e1000_poll idx devs ≡ some (frames, devs')
  pub drained : AllDrained devs'
  pub all : length frames + all_ready devs' ≡ all_ready devs

handle_ring-receive_loop : (fuel : ℕ) (dev : Device) → handle_ring fuel dev ≡ receive_loop fuel dev
unfolding handle_ring receive_loop take_frame
handle_ring-receive_loop zero dev = refl
handle_ring-receive_loop (suc fuel) dev = elim (Option-cases (get_elem? dev.rx_ring dev.rx_cur)) [
  | inl gone ↦ rw (handle_ring, receive_loop, gone) refl
  | inr (d, here) ↦
      rw (handle_ring, receive_loop, here, handle_ring-receive_loop fuel (take_frame d dev)) refl
]

handle_devices-polled :
    (idx : ℕ) (devs : List Device) (frames : List (ℕ × (ℕ × ℕ))) (devs' : List Device)
    → e1000_poll idx devs ≡ some (frames, devs')
    → handle_devices idx devs ≡ some (frames, devs', reads idx (length devs))
unfolding handle_devices e1000_poll
handle_devices-polled idx [] frames devs' h = cc
handle_devices-polled idx (dev ∷ devs) frames devs' h = elim (Option-cases (receive_loop 33 dev)) [
  | inl stop ↦ (let nothing : none ≡ some (frames, devs') = rw stop at h in cc)
  | inr ((fs, dev1), e) ↦ elim (Option-cases (e1000_poll (idx + 1) devs)) [
    | inl stop ↦ (let nothing : none ≡ some (frames, devs') = rw (e, stop) at h in cc)
    | inr ((later, devs1), f) ↦
        let same : some (map (λ x. (idx, x)) fs ++ later, dev1 ∷ devs1) ≡ some (frames, devs') =
          rw (e, f) at h in
        let g = handle_devices-polled (idx + 1) devs later devs1 f in
        rw (handle_ring-receive_loop 33 dev, e, g)
          (ap (Option.map (λ r. (r.0, r.1, reads idx (suc (length devs))))) same)
  ]
]

-- On devices whose rings have 32 descriptors, the interrupt handler returns, hands over the
-- same frames in the same order as a poll and leaves the same devices, each at a descriptor
-- that is not ready, with one frame for each descriptor that is no longer ready. Besides, it
-- reads the causes of every device once, in order, and then writes 0x20 to port 0xA0 and to
-- port 0x20.
pub e1000_handle_interrupt-SameFrames :
    (devs : List Device)
    → AllRings devs
    → SameFrames 0 devs
        (reads 0 (length devs) ++ outb 0xA0 0x20 ∷ outb 0x20 0x20 ∷ [])
        (e1000_handle_interrupt devs)
unfolding e1000_handle_interrupt
e1000_handle_interrupt-SameFrames devs v =
    let (frames, devs', e, drained, all) = e1000_poll-returns 0 devs v in
    record {
      frames = frames;
      devs' = devs';
      handled = rw (handle_devices-polled 0 devs frames devs' e) refl;
      polled = e;
      drained = drained;
      all = all;
    }

-- The lines behind the callback, on the device as they find it.
unfoldable pub give_back : Device → Option Device
give_back dev = do d ← get_elem? dev.rx_ring dev.rx_cur; some (take_frame d dev)

-- One turn of the loop of `e1000_poll` with a ready descriptor, and the interrupt behind the callback.
unfoldable pub interrupted_turn : Device → Option (List (ℕ × ℕ) × Device)
interrupted_turn dev = do
  d ← get_elem? dev.rx_ring dev.rx_cur
  (frames, dev') ← receive_loop 33 dev
  dev'' ← give_back dev'
  some ((d.addr, d.len) ∷ frames, dev'')

-- What becomes of a turn: `first` is handed over twice, `others` once. They are the frames of
-- consecutive ready descriptors, from where the device stood to the first that is not ready.
pub record Raced (dev : Device) (o : Option (List (ℕ × ℕ) × Device)) : Type 0 where
  pub first : ℕ × ℕ
  pub others : List (ℕ × ℕ)
  pub dev' : Device
  pub returns : o ≡ some (first ∷ first ∷ others, dev')
  pub emptied : ready dev'.rx_ring + length (first ∷ others) ≡ ready dev.rx_ring
  pub in_order :
      (n : ℕ) (fr : ℕ × ℕ)
      → get_elem? (first ∷ others) n ≡ some fr
      → (e : RxDesc) × (get_elem? dev.rx_ring ((dev.rx_cur + n) % 32) ≡ some e)
        × (is_ready e ≡ true)
        × (fr ≡ (e.addr, e.len))
  pub next_of_card : ℕ
  pub card : next_of_card ≡ (dev.rx_cur + length (first ∷ others)) % 32
  pub stopped : (e : RxDesc) × (get_elem? dev'.rx_ring next_of_card ≡ some e) × (is_ready e ≡ false)
  pub tail : dev'.rdt ≡ next_of_card
  pub position : dev'.rx_cur ≡ (next_of_card + 1) % 32

ready-set_same :
    (ds : List RxDesc) (i : ℕ) (d e : RxDesc)
    → get_elem? ds i ≡ some d
    → is_ready d ≡ false
    → is_ready e ≡ false
    → ready (set ds i e) ≡ ready ds
ready-set_same [] i d e at_i r n = cc
ready-set_same (x ∷ ds) zero d e at_i r n =
    let head : is_ready x ≡ false = ap is_ready (some-injective _ _ at_i) ∙ r in rw (head, n) refl
ready-set_same (x ∷ ds) (suc i) d e at_i r n = elim (Bool-cases (is_ready x)) [
  | inl t ↦ rw t (ap suc (ready-set_same ds i d e at_i r n))
  | inr f ↦ rw f (ready-set_same ds i d e at_i r n)
]

-- On a ring of 32 descriptors that stands at a ready one, if the interrupt comes between the
-- callback of a poll and the lines that give the descriptor back, the frame of this descriptor
-- is handed over twice, and those of the ready descriptors that follow it without a gap once
-- each, in the order of the ring; as many descriptors are no longer ready. The poll then gives
-- back the descriptor behind them, which is not ready and which the card fills next, so that
-- the tail stands there, and the driver waits at the descriptor behind it.
pub interrupted_turn-Raced :
    (dev : Device) (d : RxDesc)
    → IsRing dev
    → get_elem? dev.rx_ring dev.rx_cur ≡ some d
    → is_ready d ≡ true
    → Raced dev (interrupted_turn dev)
unfolding interrupted_turn give_back receive_loop take_frame
interrupted_turn-Raced dev d v here t =
    let cleared : RxDesc = record { addr = d.addr; len = d.len; status = 0 } in
    let one_less = ready-set dev.rx_ring dev.rx_cur d cleared here t refl in
    let r =
      receive_loop-Received 32 (take_frame d dev) (taken-IsRing d dev v)
        (omega (arith, one_less, ready-le dev.rx_ring, v.0)) in
    let loop : receive_loop 33 dev ≡ some ((d.addr, d.len) ∷ r.frames, r.dev') =
      rw (here, t, r.returns, receive_loop) refl in
    let (e, at_e, busy) = r.stopped in
    record {
      first = (d.addr, d.len);
      others = r.frames;
      dev' = take_frame e r.dev';
      returns = rw (here, loop, at_e) refl;
      emptied = omega (
        arith,
        ready-set_same (r.dev').rx_ring (r.dev').rx_cur e
            (record { addr = e.addr; len = e.len; status = 0 }) at_e busy refl,
        r.all,
        one_less,
      );
      in_order = one-in_order d dev _ v here t r;
      next_of_card = (r.dev').rx_cur;
      card = omega (arith, r.position);
      stopped = (
        record { addr = e.addr; len = e.len; status = 0 },
        get_elem?-set_self (r.dev').rx_ring (r.dev').rx_cur _ (get_elem?_lt _ _ at_e),
        refl,
      );
      tail = refl;
      position = refl;
    }
