-- ===== src/Proc/Filedesc/Examples.antt =====
-- The theorems on a table with three open files, two of them the same.
use gloworm.Prelude.{ℕ, ◌<◌, ◌≡◌, ◌==◌, if◌then◌else◌}
use gloworm.Utils.Queue.{null}
use gloworm.Proc.Filedesc.{
  FdTable, open_max, init_fd_table, find_unused_fd, dup_fd_table, release_fd_table,
}
use gloworm.Proc.Filedesc.Lowest.{IsUnused, find_unused_fd-IsUnused}
use gloworm.Proc.Filedesc.Balance.{release-dup_fd_table}

abbrev three_open : FdTable
three_open = record {
  files = λ i. if i == 0 then 0x100 else if i == 1 then 0x100 else if i == 3 then 0x200 else null;
}

find_unused_fd-IsUnused_example : IsUnused 0 open_max three_open (find_unused_fd three_open)
find_unused_fd-IsUnused_example = find_unused_fd-IsUnused three_open

release-dup_fd_table_example :
    let copy = dup_fd_table init_fd_table three_open 0 in
    ((j : ℕ) → j < open_max → copy.0.files j ≡ three_open.files j)
    × ((release_fd_table copy.0).1 ≡ copy.1)
release-dup_fd_table_example = release-dup_fd_table three_open
