-- ===== src/Machine.antt =====
-- machine.h: a machine with its cores, and the allocation of cores on it. An `int` is an
-- integer; Machine/Accounting shows that a well-formed machine keeps it in range.
pub mod Accounting
use servy.Prelude.{Bool, if◌then◌else◌}
use servy.Prelude.Int.{ℤ, pos, negsuc, ◌+ℤ◌, ◌-ℤ◌, leb_ℤ}
use servy.Prelude.Text.{Text}

pub record Machine : Type 0 where
  pub name : Text
  pub size : ℤ
  pub res : ℤ
  pub free : ℤ

-- machine(name, size)
abbrev pub new : Text → ℤ → Machine
new name size = record { name = name; size = size; res = pos 0; free = size }

abbrev pub get_free : Machine → ℤ
get_free m = m.size -ℤ m.res

-- The result is the number of cores reserved, or -1.
unfoldable pub alloc : Machine → ℤ → Machine × ℤ
alloc m n =
    if leb_ℤ n m.free then (record m { res = m.res +ℤ n; free = m.free -ℤ n }, n) else (m, negsuc 0)

unfoldable pub free : Machine → ℤ → Machine × ℤ
free m n =
    let m' = if leb_ℤ n m.res then record m { res = m.res -ℤ n; free = m.free +ℤ n } else m in
    (m', m'.free)
