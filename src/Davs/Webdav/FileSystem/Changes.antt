-- ===== src/Davs/Webdav/FileSystem/Changes.antt =====
-- What a sequence of operations can write.
use vestirust.Prelude.{String}
use vestirust.Davs.Webdav.FileSystem.{FileSystem, FsOp, run}

-- The paths that an operation writes to.
abbrev pub Writes : (String → Type 0) → FsOp → Type 0
Writes P (FsOp.create path) = P path
Writes P (FsOp.create_dir path) = P path
Writes P (FsOp.create_dir_all path) = P path
Writes P (FsOp.remove_file path) = P path
Writes P (FsOp.remove_dir_all path) = P path
Writes P (FsOp.write_all path bytes) = P path
Writes P (FsOp.rename path to) = P path × P to
Writes P (FsOp.copy path to) = P to

module _ {World : Type 0} (fs : FileSystem World) (P : String → Type 0) where
  -- `Changes w w'`: operations that write to paths in `P` only lead from `w` to `w'`.
  pub data Changes : World → World → Type 0 where
    same : {w : World} → Changes w w
    step : {w w' : World} (op : FsOp) → Writes P op → Changes (run fs op w).0 w' → Changes w w'

module _ {World : Type 0} {fs : FileSystem World} {P : String → Type 0} where
  pub Changes-trans : {u v w : World} → Changes fs P u v → Changes fs P v w → Changes fs P u w
  Changes-trans same d = d
  Changes-trans (step op h c) d = step op h (Changes-trans c d)

  pub Changes-one : {w : World} (op : FsOp) → Writes P op → Changes fs P w (run fs op w).0
  Changes-one op h = step op h same

module _ {P Q : String → Type 0} (weaken : (path : String) → P path → Q path) where
  Writes-weaken : (op : FsOp) → Writes P op → Writes Q op
  Writes-weaken (FsOp.create path) h = weaken path h
  Writes-weaken (FsOp.create_dir path) h = weaken path h
  Writes-weaken (FsOp.create_dir_all path) h = weaken path h
  Writes-weaken (FsOp.remove_file path) h = weaken path h
  Writes-weaken (FsOp.remove_dir_all path) h = weaken path h
  Writes-weaken (FsOp.write_all path bytes) h = weaken path h
  Writes-weaken (FsOp.rename path to) (h, k) = (weaken path h, weaken to k)
  Writes-weaken (FsOp.copy path to) h = weaken to h

  pub Changes-weaken :
      {World : Type 0} {fs : FileSystem World} {u v : World} → Changes fs P u v → Changes fs Q u v
  Changes-weaken same = same
  Changes-weaken (step op h c) = step op (Writes-weaken op h) (Changes-weaken c)
