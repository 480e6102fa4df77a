-- ===== src/Cli/Config/RoundTrip.antt =====
-- `save` and `load` of cli.c together, and what `load` makes of any sector.
use burst_kernel_virtual_mac.Base.{
  ℕ, ◌≤◌, ◌≡◌, arith, replicate, length, length-replicate, length-drop, inl, inr, Bool-cases,
}
use burst_kernel_virtual_mac.Base.Int.{ℤ, pos, pos_part, ltb_ℤ}
use burst_kernel_virtual_mac.Route.{Routes}
use burst_kernel_virtual_mac.Route.Laws.{AllMacs}
use burst_kernel_virtual_mac.Ata.{ata_read_sector}
use burst_kernel_virtual_mac.Ata.Transfer.{length-read_words}
use burst_kernel_virtual_mac.Console.{Console}
use burst_kernel_virtual_mac.Cli.Config.{
  word_at, to_int32, checked_count, routes_from, sector_one, load_config,
}
use burst_kernel_virtual_mac.Cli.Config.Layout.{length-entries_from, entries_from-AllMacs}

-- A table as `load` leaves it: 16 entries, and at most 16 routes, but maybe fewer than none.
pub record IsLoaded (r : Routes) : Type 0 where
  pub size : length r.table ≡ 16
  pub macs : AllMacs r.table
  pub count : pos_part r.num_routes ≤ 16

checked_count-le : (n : ℤ) → pos_part (checked_count n) ≤ 16
checked_count-le n = elim (Bool-cases (ltb_ℤ (pos 16) n)) [
  | inl over ↦ rw over (omega arith)
  | inr within ↦ rw within (ground arith)
]

-- Whatever the disk answers, `load` leaves a table of 16 entries with MAC addresses of 6 bytes,
-- and at most 16 routes; their number may be negative.
pub load_config-IsLoaded : (c : Console) → IsLoaded (load_config c).router.routes
unfolding load_config routes_from ata_read_sector
load_config-IsLoaded c = record {
  size = length-entries_from 16 _;
  macs = entries_from-AllMacs 16 _ (
      omega (
        arith,
        length-drop 4 (sector_one c.disk),
        length-read_words ((c.disk).answer 1) 0 (replicate 512 0),
        length-replicate {A = ℕ} 512 0,
      ));
  count = checked_count-le (to_int32 (word_at (sector_one c.disk) 0));
}
