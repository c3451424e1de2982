-- ===== src/Proc/Filedesc.antt =====
-- src/kernel/proc/filedesc.c and include/kernel/proc/filedesc.h: the table of the open files of a
-- process. An operation that calls `vfs_clone_fileptr` or `vfs_close` returns the files it calls
-- them for, in their order. A descriptor is not negative.
pub mod Lowest
pub mod Balance
mod Examples
use gloworm.Prelude.{
  ℕ, zero, suc, ◌+◌, ◌-◌, Bool, true, false, not, ◌||◌, Option, none, some, List, [], ◌∷◌, ltb, leb,
  ◌==◌, if◌then◌else◌, update,
}
use gloworm.Utils.Queue.{Ptr, null}

abbrev pub open_max : ℕ
open_max = 20

-- `struct fd_table` without its count of references.
pub record FdTable : Type 0 where
  pub files : ℕ → Ptr

unfoldable pub init_fd_table : FdTable
init_fd_table = record { files = λ i. null }

-- A loop over the descriptors has the number of rounds left and the next descriptor.
unfoldable pub release_from : (rounds i : ℕ) → FdTable → FdTable × List Ptr
release_from zero i table = (table, [])
release_from (suc n) i table =
    let cleared : FdTable = record { files = update table.files i null } in
    let kept = release_from n (i + 1) table in
    let rest = release_from n (i + 1) cleared in
    if table.files i == null then kept else (rest.0, table.files i ∷ rest.1)

-- The table and the files that are closed.
unfoldable pub release_fd_table : FdTable → FdTable × List Ptr
release_fd_table table = release_from open_max 0 table

unfoldable pub dup_from : (rounds i : ℕ) → (dest source : FdTable) → FdTable × List Ptr
dup_from zero i dest source = (dest, [])
dup_from (suc n) i dest source =
    let copied : FdTable = record { files = update dest.files i (source.files i) } in
    let kept = dup_from n (i + 1) dest source in
    let rest = dup_from n (i + 1) copied source in
    if source.files i == null then kept else (rest.0, source.files i ∷ rest.1)

-- The table and the files that are cloned; a clone goes by the address of its file.
unfoldable pub dup_fd_table : (dest source : FdTable) → (limit : ℕ) → FdTable × List Ptr
dup_fd_table dest source limit =
    dup_from ((if limit == 0 then open_max - 1 else limit) + 1) 0 dest source

unfoldable pub unused_from : (rounds i : ℕ) → FdTable → Option ℕ
unused_from zero i table = none
unused_from (suc n) i table =
    let rest = unused_from n (i + 1) table in if table.files i == null then some i else rest

-- None is EMFILE.
unfoldable pub find_unused_fd : FdTable → Option ℕ
find_unused_fd table = unused_from open_max 0 table

-- What the field `vnode` of a file is, that of no file included, is an argument.
unfoldable pub get_fd : (vnode : Ptr → Ptr) → FdTable → (fd : ℕ) → Ptr
get_fd vnode table fd =
    if leb open_max fd || vnode (table.files fd) == null then null else table.files fd

unfoldable pub set_fd : FdTable → (fd : ℕ) → (file : Ptr) → FdTable
set_fd table fd file =
    if leb open_max fd then table else record { files = update table.files fd file }

-- The table and the files that are closed.
unfoldable pub free_fd : FdTable → (fd : ℕ) → FdTable × List Ptr
free_fd table fd =
    (set_fd table fd null, if table.files fd == null then [] else table.files fd ∷ [])
