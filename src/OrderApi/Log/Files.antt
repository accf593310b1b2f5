-- ===== src/OrderApi/Log/Files.antt =====
-- newLogger of services/order-api/logger.go: the two files that are opened. `Disk` is how the
-- calls of the operating system end, with filepath.Join.
use container_patterns.Common.{
  ◌≡◌, ◌⊎◌, arith, Bool, true, false, Option, none, some, List, [], ◌∷◌, Bytes, codes,
  if◌then◌else◌,
}

pub record Disk : Type 0 where
  pub join : Bytes → Bytes → Bytes
  pub mkdir : Bytes → Bool
  pub open_append : Bytes → Bool

-- The files that are open, by their paths.
abbrev pub Handles : Type 0
Handles = List Bytes

abbrev pub access_path : Disk → Bytes → Bytes
access_path disk dir = disk.join dir (codes "access.log")

abbrev pub app_path : Disk → Bytes → Bytes
app_path disk dir = disk.join dir (codes "app.log")

-- A logger is its two open files.
pub record Opened : Type 0 where
  pub access_file : Bytes
  pub app_file : Bytes

-- openAppend
unfoldable pub open_append : Disk → Bytes → Handles → Bool × Handles
open_append disk path handles =
    if disk.open_append path then (true, path ∷ handles) else (false, handles)

-- The file that was opened last is closed.
abbrev pub close_last : Handles → Handles
close_last [] = []
close_last (h ∷ handles) = handles

abbrev pub with_app : Disk → Bytes → Bool × Handles → Option Opened × Handles
with_app disk dir (false, handles) = (none, close_last handles)
with_app disk dir (true, handles) =
    (some (record { access_file = access_path disk dir; app_file = app_path disk dir }), handles)

abbrev pub with_access : Disk → Bytes → Bool × Handles → Option Opened × Handles
with_access disk dir (false, handles) = (none, handles)
with_access disk dir (true, handles) =
    with_app disk dir (open_append disk (app_path disk dir) handles)

-- newLogger; `none` is its error.
unfoldable pub new_logger : Disk → Bytes → Handles → Option Opened × Handles
unfolding open_append
new_logger disk dir handles =
    if disk.mkdir dir
    then with_access disk dir (open_append disk (access_path disk dir) handles)
    else (none, handles)

-- newLogger leaves no file open behind an error, whichever call fails, and both files otherwise.
pub new_logger_opens :
    (disk : Disk) (dir : Bytes) (handles : Handles)
    → let (l, handles') = new_logger disk dir handles in
      ((l ≡ none) × (handles' ≡ handles))
      ⊎ ((l ≡ some (record { access_file = access_path disk dir; app_file = app_path disk dir }))
          × (handles' ≡ app_path disk dir ∷ access_path disk dir ∷ handles))
unfolding new_logger open_append
new_logger_opens disk dir handles = ground arith
