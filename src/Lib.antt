-- ===== src/Lib.antt =====
-- Verification library of NKernel (BurstKernel-Virtual-Machine), a router that boots on x86-64
-- without an operating system. Paths of C files are from the repository's root.
--
-- The parts. The network driver (e1000.c) hands every received frame to the fast path
-- (nk_fastpath_rx_callback in kernel.c), which translates addresses (nat.c), looks up a route
-- (add_route, route_lookup in kernel.c), rewrites the headers and sends, or passes the frame to lwIP,
-- which sends through the driver too (port/ethernetif.c). Beside it run a shell and an editor
-- (keyboard.c, edit.c, cli.c) on files in memory (vfs.c), for the keyboard and for one telnet client
-- (telnetd.c), the text console (kernel.c), the disk (ata.c), the heap (mm.c), the interrupt table
-- (idt.c) and a C library (libc.c).
--
-- Base          shared helpers: Boolean tests, lists under native indices, faults, searches, integers,
--               texts
-- Packet        bytes in memory, read and written through casts as in nat.c and kernel.c
-- Samples       frames that the tests share
-- Checksum      csum_replace2, csum_replace4 (nat.c), ip_checksum (kernel.c); Words: sums of words;
--               Full: ip_checksum against them
-- Nat           nat.c, nat.h: nat_init, allocate_port, nat_outbound, nat_inbound,
--               nat_get_internal_ip. Table: the invariant of the table; Session: the search for a
--               session; Rewrite, Integrity: the rewriting and the checksums; Outbound, Inbound: the
--               outcomes; Steps: sequences of packets; RoundTrip: replies; Spec: the NAT as a list of
--               flows; Refine, Owner, Answers, Traces: the table against the list
-- Route         add_route, route_lookup (kernel.c); Laws
-- Fastpath      nk_fastpath_rx_callback (kernel.c); Forward: the header; Paths: every frame;
--               Transit: routed frames
-- Heap          mm.c; Bounds
-- Libc          libc.c; Copy: the memory functions; Strings: the string functions
-- Vfs           vfs.c, vfs.h; Open, Create, RoundTrip; Spec: the files as a list of names; Traces: the
--               slots against the list
-- Console       edit.c, the shell line of keyboard.c, cli_autocomplete (cli.c); Document: the editor;
--               Complete: the completion; Invariant: the console between two keys
-- Cli           cli_execute (cli.c). Print: numbers and addresses; Config: save and load; Sessions:
--               nat show, and the scan of ntop; Screens: the commands that print; Execute: the
--               commands; Keys: the keyboard handler with the commands
-- Telnet        telnetd.c. Relay: the hooks; Valid: the state between two bytes; Receive: the bytes of a
--               client; Client: the connections; Net: the server and the router; Listen: telnetd_init
-- Vga           puts, set_color, clear_screen (kernel.c); Bounds; Echo: with the serial line
-- Serial        serial_init, serial_write, puts_serial (kernel.c); Sent
-- Ata           ata.c; Transfer
-- Driver        e1000_send_packet, e1000_poll (e1000.c); Receive, Send; Init: e1000_init and the scan of
--               the PCI slots; Interrupt: e1000_handle_interrupt, alone and in the middle of a poll
-- Ethernetif    ethernetif_init, ethernetif_input (port/ethernetif.c); Buffers: who has the buffers
-- System        e1000_poll with the callback of kernel.c, and what lwIP sends (port/ethernetif.c).
--               Devices: sending; Frame: a frame; Poll: a poll; Boot: the cards and the
--               route of kmain; Run: polls of the main loop; Sample: a system for the tests
-- Machine       the whole: cards, router, keyboard and telnet server on one state. Valid: its invariant;
--               Steps, Run: what happens to it; Poll, Served: a poll with
--               events in its turns; Files: vfs_init; Trial: the frame that kmain makes up;
--               Boot: kmain up to the main loop
-- Interrupts    idt.c, keyboard_init (keyboard.c), sys_now (kernel.c); Gates, Ticks
--
-- Conventions. A C integer is a native number with its wrap-around written out. State is passed
-- explicitly. An access outside an array, or through a NULL pointer, is a fault: the function answers
-- `none`. Writes go through `store`, which faults; or through `set`, which does not, where a read of the
-- same place or a constant bounds the index (entries of tables and rings, bytes of a sector), and for
-- the cells of the screen, whose bounds are in Vga/Bounds. Bit operations are arithmetic: a mask of
-- low bits is a remainder, a shift a quotient or a product, and the `|` of disjoint parts a sum. Strings are arrays with a NUL.
--
-- Fuel. The loop of ip_checksum that folds carries has fuel for three tests, enough for every 32-bit
-- sum. The receive loop has fuel 33 in a poll, one more than a ring has descriptors; the card is
-- taken not to fill descriptors while the loop runs. A receive buffer has at least 92 bytes, as far
-- as a translation reaches behind the longest IPv4 header; the driver's buffers have 2048. The frame
-- that kmain makes up has 64, and is run as it is. The loops
-- of the PCI scan run over 256 buses of 32 slots, the loops of e1000_init over the rings.
--
-- Outside. What the hardware and lwIP answer are arguments: registers, sectors, scancodes, the polls of
-- a sent descriptor, new connections and their data, the packets that lwIP sends. Calls that go out
-- (ports, lwIP, the screen) are lists, oldest first. `exit` stops the machine: it answers `none`.
--
-- Order. A turn of the receive loop of e1000_poll has two halves, the callback and the lines that give
-- the descriptor back, and between the two, as between two turns, anything else may come: interrupts of
-- cards and keyboard, and the calls of lwIP. Elsewhere a function is not interrupted, kmain behind its
-- `sti` neither. System takes lwIP to answer a frame with packets only; Machine has its calls of the
-- telnet server too.
--
-- Not modelled: the assembly but for the calls of the two handlers; what lwIP does with a frame, whose
-- sources are not in the repository, beyond the packets that it sends and the callbacks that it makes;
-- writes that lwIP refuses; the reads of the keyboard's port and its end of interrupt; lwipopts.h and
-- arch/cc.h, which configure lwIP.
pub mod Base
pub mod Packet
pub mod Samples
pub mod Checksum
pub mod Nat
pub mod Route
pub mod Fastpath
pub mod Heap
pub mod Libc
pub mod Vfs
pub mod Console
pub mod Cli
pub mod Telnet
pub mod Interrupts
pub mod Serial
pub mod Vga
pub mod Ata
pub mod Driver
pub mod Ethernetif
pub mod System
pub mod Machine
