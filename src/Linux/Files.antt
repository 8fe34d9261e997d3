-- ===== src/Linux/Files.antt =====
-- What internal/linux asks of package os below procfs and sysfs, at one moment.
use diskforge.Base.{ℕ, Option, List, Bytes}
use diskforge.Base.Int.{ℤ}
use diskforge.Errors.{Error, Result}

-- `os.FileInfo`: the size, and the permission bits of the mode.
pub record FileInfo : Type 0 where
  pub size : ℤ
  pub perm : ℕ

-- `read_dir` gives the entries' names. `scan` is `os.Open` and a `bufio.Scanner`: the lines that it
-- gives, and its `Err`. `names` holds the names of all entries of the tree.
pub record Files : Type 0 where
  pub read_file : Bytes → Result Bytes
  pub read_dir : Bytes → Result (List Bytes)
  pub stat : Bytes → Result FileInfo
  pub scan : Bytes → Result (List Bytes × Option Error)
  pub names : List Bytes

-- `Observer`, over the files of the host.
pub record Observer : Type 0 where
  pub proc_root : Bytes
  pub sys_root : Bytes
  pub files : Files
