-- ===== src/Machine/Tests.antt =====
-- A machine with one card, over a connection, a key and a frame; and the start.
use burst_kernel_virtual_mac.Base.{
  ℕ, ◌==◌, if◌then◌else◌, Bool, true, some, List, [], ◌∷◌, arith, ◌++◌, replicate,
}
use burst_kernel_virtual_mac.Packet.{Buffer}
use burst_kernel_virtual_mac.Samples.{of_list, outward, outward-IsBytes}
use burst_kernel_virtual_mac.Console.{Disk, puts}
use burst_kernel_virtual_mac.System.Sample.{one_card}
use burst_kernel_virtual_mac.Machine.{Machine, Event, segment, key, with_telnet}
use burst_kernel_virtual_mac.Machine.Boot.{
  LwipCall, machine_of, boot_machine, Booted, boot_machine-Booted,
}

abbrev no_replies : Buffer → ℕ → List (ℕ × ℕ)
no_replies pkt len = []

abbrev at_once : ℕ → Bool
at_once left = true

abbrev empty_disk : Disk
empty_disk = record { answer = λ lba. []; accesses = [] }

abbrev running : Machine
running = machine_of [] [] empty_disk (λ k. 0) one_card

-- The key `h`.
abbrev typed : Machine
typed =
    with_telnet
      (record (running.telnet) {
        console = record (running.telnet.console) {
          line = record { buf = 104 ∷ replicate 255 0; idx = 1 };
          screen = running.telnet.console.screen ++ puts (104 ∷ []) ∷ [];
        };
      })
      running

-- In the first turn a key is pressed, and data come.
abbrev one_turn : List (List Event)
one_turn = (key 35 ∷ segment 7 (some (record { payload = 104 ∷ []; tot_len = 1 })) ∷ []) ∷ []

-- A card in slot 3 of bus 0.
abbrev one_slot : ℕ → ℕ
one_slot address = if address == 2147489792 then 269385862 else 0

-- lwIP sends one packet in every call.
abbrev one_packet : LwipCall → List (ℕ × ℕ)
one_packet c = (4096, 42) ∷ []

boot_machine-Booted_example : Booted one_slot (
    boot_machine at_once no_replies one_packet 589824 one_slot 1048576
      (λ idx i. 0)
      (λ idx reg. 0)
      0
      (λ a. of_list outward)
      (λ port. 255)
      empty_disk
      (λ k. 0))
boot_machine-Booted_example =
    boot_machine-Booted at_once no_replies one_packet 589824 one_slot 1048576 (λ idx i. 0)
      (λ idx reg. 0) 0 (λ a. of_list outward) (λ port. 255) empty_disk (λ k. 0) (omega arith)
      (λ a. (outward-IsBytes, omega arith))
