-- ===== src/Davs/Webdav/FileSystem.antt =====
-- What src/davs/webdav_server.rs uses of `tokio::fs`, as an interface, and its operations that write.
pub mod Changes
use vestirust.Prelude.{ℕ, Bool, Option, String, List}
use vestirust.Davs.EncryptedStreamer.Cipher.{Bytes}

-- A time in milliseconds, from 1970 on or before it.
pub data SystemTime : Type 0 where
  since_epoch before_epoch : ℕ → SystemTime

-- `fs::metadata`, with the time of the last change, where the system knows it
pub record Metadata : Type 0 where
  pub is_dir : Bool
  pub is_file : Bool
  pub is_symlink : Bool
  pub len : ℕ
  pub modified : Option SystemTime

-- `World` is the state of the file system; a call that writes tells whether it succeeded, and one
-- that failed may have changed it. `metadata`, `open` and `canonicalize` follow symbolic links.
-- The entries of a directory are the names in it, `none` where reading one fails; `walk` is the
-- crate `async_walkdir`, and gives paths. `write_all` writes to a file that was just created.
pub record FileSystem (World : Type 0) : Type 0 where
  pub metadata : World → String → Option Metadata
  pub symlink_metadata : World → String → Option Metadata
  pub canonicalize : World → String → Option String
  pub open_file : World → String → Option Bytes
  pub read_dir : World → String → Option (List (Option String))
  pub walk : World → String → List (Option String)
  pub create : String → World → World × Bool
  pub write_all : String → Bytes → World → World × Bool
  pub create_dir : String → World → World × Bool
  pub create_dir_all : String → World → World × Bool
  pub remove_file : String → World → World × Bool
  pub remove_dir_all : String → World → World × Bool
  pub rename : String → String → World → World × Bool
  pub copy : String → String → World → World × Bool

-- An operation that writes.
pub data FsOp : Type 0 where
  create create_dir create_dir_all remove_file remove_dir_all : String → FsOp
  write_all : String → Bytes → FsOp
  rename copy : String → String → FsOp

module _ {World : Type 0} (fs : FileSystem World) where
  abbrev pub run : FsOp → World → World × Bool
  run (FsOp.create path) w = fs.create path w
  run (FsOp.create_dir path) w = fs.create_dir path w
  run (FsOp.create_dir_all path) w = fs.create_dir_all path w
  run (FsOp.remove_file path) w = fs.remove_file path w
  run (FsOp.remove_dir_all path) w = fs.remove_dir_all path w
  run (FsOp.write_all path bytes) w = fs.write_all path bytes w
  run (FsOp.rename path to) w = fs.rename path to w
  run (FsOp.copy path to) w = fs.copy path to w
