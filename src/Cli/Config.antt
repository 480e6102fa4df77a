-- ===== src/Cli/Config.antt =====
-- `save`, `load` and `cat startup-config` of cli.c: the routing table in sector 1. An entry takes 16
-- bytes in memory: two words, the six bytes of the MAC address, and two bytes of padding.
pub mod Layout
pub mod RoundTrip
use burst_kernel_virtual_mac.Base.{
  ℕ, zero, suc, ◌+◌, ◌-◌, ◌*◌, ◌/◌, ◌%◌, ◌^◌, List, [], ◌∷◌, ◌++◌, ltb, get_or, take, drop,
  replicate, length, if◌then◌else◌,
}
use burst_kernel_virtual_mac.Base.Int.{ℤ, pos, negsuc, ltb_ℤ}
use burst_kernel_virtual_mac.Route.{RouteEntry, Routes, max_routes}
use burst_kernel_virtual_mac.Ata.{ata_read_sector, ata_write_sector}
use burst_kernel_virtual_mac.Console.{Console, Disk}

-- The four bytes of a `uint32_t`, and the value that such bytes stand for.
abbrev pub word_bytes : ℕ → List ℕ
word_bytes w = w % 2 ^ 8 ∷ w / 2 ^ 8 % 2 ^ 8 ∷ w / 2 ^ 16 % 2 ^ 8 ∷ w / 2 ^ 24 % 2 ^ 8 ∷ []

abbrev pub word_at : List ℕ → ℕ → ℕ
word_at bytes i =
    get_or bytes i 0
    + get_or bytes (i + 1) 0 * 2 ^ 8
    + get_or bytes (i + 2) 0 * 2 ^ 16
    + get_or bytes (i + 3) 0 * 2 ^ 24

-- `num_routes` as a `uint32_t`, and back.
abbrev pub to_uint32 : ℤ → ℕ
to_uint32 (pos n) = n % 2 ^ 32
to_uint32 (negsuc n) = 2 ^ 32 - 1 - n

abbrev pub to_int32 : ℕ → ℤ
to_int32 w = if ltb w (2 ^ 31) then pos w else negsuc (2 ^ 32 - 1 - w)

-- The bytes of the table, entry `i` on.
unfoldable pub entries_bytes : (ℕ → ℕ) → ℕ → List RouteEntry → List ℕ
entries_bytes padding i [] = []
entries_bytes padding i (e ∷ es) =
    word_bytes e.dest_ip
    ++ (word_bytes e.netmask
        ++ (e.next_hop_mac
            ++ (padding (i * 2) ∷ padding (i * 2 + 1) ∷ entries_bytes padding (i + 1) es)))

-- The buffer that `save` fills: 512 bytes of 0, of which 260 are written.
unfoldable pub config_sector : (ℕ → ℕ) → Routes → List ℕ
config_sector padding r =
    word_bytes (to_uint32 r.num_routes) ++ (entries_bytes padding 0 r.table ++ replicate 252 0)

-- `memcpy` into the table, `n` entries.
unfoldable pub entries_from : ℕ → List ℕ → List RouteEntry
entries_from zero bytes = []
entries_from (suc n) bytes =
    record {
      dest_ip = word_at bytes 0;
      netmask = word_at bytes 4;
      next_hop_mac = take 6 (drop 8 bytes);
    }
    ∷ entries_from n (drop 16 bytes)

-- "sanity check": the comparison is signed.
abbrev pub checked_count : ℤ → ℤ
checked_count n = if ltb_ℤ (pos max_routes) n then pos 0 else n

unfoldable pub routes_from : List ℕ → Routes
routes_from buffer = record {
  table = entries_from max_routes (drop 4 buffer);
  num_routes = checked_count (to_int32 (word_at buffer 0));
}

-- What stands in the padding of the table after `memcpy`.
abbrev pub padding_from : List ℕ → ℕ → ℕ
padding_from buffer i = get_or buffer (4 + i / 2 * 16 + 14 + i % 2) 0

-- The buffer after a read of sector 1, which is one of zeros before it.
abbrev pub sector_one : Disk → List ℕ
sector_one disk = (ata_read_sector 1 (disk.answer 1) (replicate 512 0)).1

abbrev pub access_sector_one : Disk → Disk
access_sector_one disk = record disk {
  accesses = disk.accesses ++ (ata_read_sector 1 (disk.answer 1) (replicate 512 0)).0;
}

unfoldable pub save_config : Console → Console
save_config c = record c {
  disk = record (c.disk) {
    accesses = (c.disk).accesses ++ ata_write_sector 1 (config_sector c.padding (c.router).routes);
  };
}

unfoldable pub load_config : Console → Console
load_config c = record c {
  router = record (c.router) { routes = routes_from (sector_one c.disk) };
  disk = access_sector_one c.disk;
  padding = padding_from (sector_one c.disk);
}

-- `cat startup-config`: the routes of the sector. Here the count and the comparison are unsigned.
unfoldable pub saved_routes : List ℕ → List RouteEntry
saved_routes buffer =
    let n = word_at buffer 0 in
    take (if ltb max_routes n then 0 else n) (entries_from max_routes (drop 4 buffer))
