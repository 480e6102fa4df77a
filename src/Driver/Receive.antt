-- ===== src/Driver/Receive.antt =====
-- The receive loop of e1000.c against the ready descriptors of a ring.
use burst_kernel_virtual_mac.Base.{
  ℕ, zero, suc, ◌+◌, ◌%◌, ◌≤◌, ◌<◌, ◌≡◌, ◌∙◌, refl, ap, sym, true, false, Option, some, List, [],
  ◌∷◌, arith, length, get_elem?, set, length-set, length-append, length-map, map, ◌++◌,
  get_elem?-set, get_elem?_of_lt, if◌then◌else◌, inl, inr, Bool-cases,
}
use mathlib.Core.Option.{some-injective}
use mathlib.Core.Bool.{false≢true}
use burst_kernel_virtual_mac.Driver.{RxDesc, Device, is_ready, take_frame, receive_loop, e1000_poll}

-- The ready descriptors of a ring.
abbrev pub ready : List RxDesc → ℕ
ready [] = 0
ready (d ∷ ds) = if is_ready d then suc (ready ds) else ready ds

abbrev pub IsRing : Device → Type 0
IsRing dev = (length dev.rx_ring ≡ 32) × (dev.rx_cur < 32)

-- What the loop has done, with the frames that it handed over.
pub record Received (dev : Device) (o : Option (List (ℕ × ℕ) × Device)) : Type 0 where
  pub frames : List (ℕ × ℕ)
  pub dev' : Device
  pub returns : o ≡ some (frames, dev')
  pub ring : IsRing dev'
  pub stopped : (d : RxDesc) × (get_elem? dev'.rx_ring dev'.rx_cur ≡ some d) × (is_ready d ≡ false)
  pub all : length frames + ready dev'.rx_ring ≡ ready dev.rx_ring
  pub position : dev'.rx_cur ≡ (dev.rx_cur + length frames) % 32
  pub in_order :
      (n : ℕ) (fr : ℕ × ℕ)
      → get_elem? frames n ≡ some fr
      → (d : RxDesc) × (get_elem? dev.rx_ring ((dev.rx_cur + n) % 32) ≡ some d)
        × (is_ready d ≡ true)
        × (fr ≡ (d.addr, d.len))

pub ready-set :
    (ds : List RxDesc) (i : ℕ) (d e : RxDesc)
    → get_elem? ds i ≡ some d
    → is_ready d ≡ true
    → is_ready e ≡ false
    → suc (ready (set ds i e)) ≡ ready ds
ready-set [] i d e at_i r n = cc
ready-set (x ∷ ds) zero d e at_i r n =
    let head : is_ready x ≡ true = ap is_ready (some-injective _ _ at_i) ∙ r in rw (head, n) refl
ready-set (x ∷ ds) (suc i) d e at_i r n = elim (Bool-cases (is_ready x)) [
  | inl t ↦ rw t (ap suc (ready-set ds i d e at_i r n))
  | inr f ↦ rw f (ready-set ds i d e at_i r n)
]

pub ready-le : (ds : List RxDesc) → ready ds ≤ length ds
ready-le [] = omega arith
ready-le (d ∷ ds) = ground (arith, ready-le ds)

pub taken-IsRing : (d : RxDesc) (dev : Device) → IsRing dev → IsRing (take_frame d dev)
unfolding take_frame
taken-IsRing d dev v = (length-set dev.rx_ring dev.rx_cur _ ∙ v.0, omega arith)

-- The order of the frames, with one more in front.
pub one-in_order :
    (d : RxDesc) (dev : Device) (o : Option (List (ℕ × ℕ) × Device))
    → IsRing dev
    → get_elem? dev.rx_ring dev.rx_cur ≡ some d
    → is_ready d ≡ true
    → (r : Received (take_frame d dev) o) → (n : ℕ) (fr : ℕ × ℕ)
    → get_elem? ((d.addr, d.len) ∷ r.frames) n ≡ some fr
    → (e : RxDesc) × (get_elem? dev.rx_ring ((dev.rx_cur + n) % 32) ≡ some e)
      × (is_ready e ≡ true)
      × (fr ≡ (e.addr, e.len))
unfolding take_frame
one-in_order d dev o v here t r zero fr e =
    let same : (dev.rx_cur + 0) % 32 ≡ dev.rx_cur = omega (arith, v.1) in
    (d, rw same here, t, sym (some-injective _ _ e))
one-in_order d dev o v here t r (suc n) fr e =
    let (x, at_x, rx, eq) = r.in_order n fr e in
    let same : ((dev.rx_cur + 1) % 32 + n) % 32 ≡ (dev.rx_cur + suc n) % 32 = omega arith in
    elim (get_elem?-set dev.rx_ring dev.rx_cur (((dev.rx_cur + 1) % 32 + n) % 32)
      (record { addr = d.addr; len = d.len; status = 0 }) x at_x) [
        | inl p ↦ absurd (false≢true (ap is_ready (sym p.1) ∙ rx))
        | inr p ↦ (x, ap (get_elem? dev.rx_ring) (sym same) ∙ p.1, rx, eq)
      ]

Received-one :
    (d : RxDesc) (dev : Device) (o : Option (List (ℕ × ℕ) × Device))
    → IsRing dev
    → get_elem? dev.rx_ring dev.rx_cur ≡ some d
    → is_ready d ≡ true
    → (r : Received (take_frame d dev) o) → Received dev (some ((d.addr, d.len) ∷ r.frames, r.dev'))
unfolding take_frame
Received-one d dev o v here t r = record {
  frames = (d.addr, d.len) ∷ r.frames;
  dev' = r.dev';
  returns = refl;
  ring = r.ring;
  stopped = r.stopped;
  all = omega (
    arith,
    r.all,
    ready-set dev.rx_ring dev.rx_cur d (record { addr = d.addr; len = d.len; status = 0 }) here t
        refl,
  );
  position = omega (arith, r.position);
  in_order = one-in_order d dev o v here t r;
}

-- On a ring of 32 descriptors, with more fuel than there are ready descriptors, the receive
-- loop returns and stops at a descriptor that is not ready. It hands over the frames of
-- consecutive ready descriptors, in the order of the ring from where it stood, and clears as
-- many descriptors as it hands over frames.
pub receive_loop-Received :
    (fuel : ℕ) (dev : Device)
    → IsRing dev
    → ready dev.rx_ring < fuel
    → Received dev (receive_loop fuel dev)
unfolding receive_loop
receive_loop-Received zero dev v lt = absurd (omega arith)
receive_loop-Received (suc fuel) dev v lt =
    let (d, here) = get_elem?_of_lt dev.rx_ring dev.rx_cur (omega (arith, v.0, v.1)) in
    elim (Bool-cases (is_ready d)) [
      | inl t ↦
          let less : ready (take_frame d dev).rx_ring < fuel =
            unfold take_frame in
            omega (
              arith,
              ready-set dev.rx_ring dev.rx_cur d (record { addr = d.addr; len = d.len; status = 0 })
                  here t refl,
            ) in
          let r = receive_loop-Received fuel (take_frame d dev) (taken-IsRing d dev v) less in
          rw (here, t, r.returns, receive_loop) (Received-one d dev _ v here t r)
      | inr f ↦
          rw (here, f, receive_loop)
            (record {
              frames = [];
              dev' = dev;
              returns = refl;
              ring = v;
              stopped = (d, here, f);
              all = omega arith;
              position = omega (arith, v.1);
              in_order = λ n fr e. cc;
            })
    ]

abbrev pub AllRings : List Device → Type 0
AllRings [] = Unit
AllRings (dev ∷ devs) = IsRing dev × AllRings devs

abbrev pub AllDrained : List Device → Type 0
AllDrained [] = Unit
AllDrained (dev ∷ devs) =
    IsRing dev
    × ((d : RxDesc) × (get_elem? dev.rx_ring dev.rx_cur ≡ some d) × (is_ready d ≡ false))
    × AllDrained devs

abbrev pub all_ready : List Device → ℕ
all_ready [] = 0
all_ready (dev ∷ devs) = ready dev.rx_ring + all_ready devs

-- On devices whose rings have 32 descriptors a poll returns, leaves every device at a
-- descriptor that is not ready, and hands over one frame for each descriptor that is no longer
-- ready.
pub e1000_poll-returns :
    (idx : ℕ) (devs : List Device)
    → AllRings devs
    → (frames : List (ℕ × (ℕ × ℕ))) × (devs' : List Device) × (e1000_poll idx devs
        ≡ some (frames, devs'))
      × AllDrained devs'
      × (length frames + all_ready devs' ≡ all_ready devs)
unfolding e1000_poll
e1000_poll-returns idx [] v = ([], [], refl, tt, refl)
e1000_poll-returns idx (dev ∷ devs) v =
    let r = receive_loop-Received 33 dev v.0 (omega (arith, ready-le dev.rx_ring, v.0.0)) in
    let (later, devs', e, drained, count) = e1000_poll-returns (idx + 1) devs v.1 in
    (
      map (λ f. (idx, f)) r.frames ++ later,
      r.dev' ∷ devs',
      rw (r.returns, e) refl,
      (r.ring, r.stopped, drained),
      omega (
        arith,
        r.all,
        count,
        length-append (map (λ f. (idx, f)) r.frames) later,
        length-map {B = ℕ × (ℕ × ℕ)} r.frames (λ f. (idx, f)),
      ),
    )
