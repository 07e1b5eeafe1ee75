-- ===== src/Sync/Ports.antt =====
-- What the engine calls: the traits of crates/lnxdrive-core/src/ports, the directory reader of tokio,
-- the clock, random identifiers, and the functions of Unicode and of the crate url. All of it acts on
-- a world of its own, and may fail with an `anyhow::Error`, which is its whole rendering `{:#}`.
use lnxdrive.Prelude.{
  ℕ, Bool, not, ◌&&◌, ◌++◌, Option, none, some, List, Text, codes, Result, ok, err,
}
use lnxdrive.Core.Account.{Account}
use lnxdrive.Core.Ids.{RemoteId, FileHash, DeltaToken}
use lnxdrive.Core.RemotePath.{RemotePath}
use lnxdrive.Core.Session.{SyncSession}
use lnxdrive.Core.SyncItem.{SyncItem}
use lnxdrive.Core.SyncPath.{SyncPath, PathBuf}
use lnxdrive.Core.Time.{DateTime}

pub record DeltaItem : Type 0 where
  pub id : Text
  pub name : Text
  pub path : Option Text
  pub size : Option ℕ
  pub hash : Option Text
  pub modified : Option DateTime
  pub is_deleted : Bool
  pub is_directory : Bool
  pub parent_id : Option Text

pub record DeltaResponse : Type 0 where
  pub items : List DeltaItem
  pub next_link : Option Text
  pub delta_link : Option Text

pub record FileSystemState : Type 0 where
  pub exists : Bool
  pub is_file : Bool
  pub size : ℕ
  pub modified : Option DateTime
  pub is_locked : Bool

unfoldable pub is_directory : FileSystemState → Bool
is_directory self = self.exists && not self.is_file

pub data FileKind : Type 0 where
  directory file other : FileKind

-- A directory entry: its path, and its kind and modification time, each of which may fail to be read.
pub record DirEntry : Type 0 where
  pub path : PathBuf
  pub kind : Result Text FileKind
  pub modified : Result Text DateTime

abbrev pub Bytes : Type 0
Bytes = List ℕ

pub record Ports : Type 1 where
  pub World : Type 0
  pub get_delta : Option DeltaToken → World → World × Result Text DeltaResponse
  pub download_file : RemoteId → World → World × Result Text Bytes
  pub upload_file : RemotePath → Text → Bytes → World → World × Result Text DeltaItem
  pub upload_file_session : RemotePath → Text → Bytes → World → World × Result Text DeltaItem
  pub delete_item : RemoteId → World → World × Result Text (Unit {0})
  pub read_file : SyncPath → World → World × Result Text Bytes
  pub write_file : SyncPath → Bytes → World → World × Result Text (Unit {0})
  pub delete_file : SyncPath → World → World × Result Text (Unit {0})
  pub get_state : SyncPath → World → World × Result Text FileSystemState
  pub compute_hash : SyncPath → World → World × Result Text FileHash
  pub create_directory : SyncPath → World → World × Result Text (Unit {0})
  pub read_dir : SyncPath → World → World × Result Text (List DirEntry)
  pub save_item : SyncItem → World → World × Result Text (Unit {0})
  pub get_item_by_path : SyncPath → World → World × Result Text (Option SyncItem)
  pub get_item_by_remote_id : RemoteId → World → World × Result Text (Option SyncItem)
  pub query_items : World → World × Result Text (List SyncItem)
  pub save_account : Account → World → World × Result Text (Unit {0})
  pub get_default_account : World → World × Result Text (Option Account)
  pub save_session : SyncSession → World → World × Result Text (Unit {0})
  pub now : World → World × DateTime
  pub fresh : World → World × ℕ
  pub sleep : ℕ → World → World
  pub to_lowercase : Text → Text
  pub is_alphanumeric : ℕ → Bool
  pub query_token : Text → Option Text

-- Computations of the engine: a new world, and a value or an error.
module _ (ports : Ports) where
  abbrev pub M : Type 0 → Type 0
  M A = ports.World → ports.World × Result Text A

  abbrev pub pure : {A : Type 0} → A → M A
  pure a w = (w, ok a)

  abbrev pub bind : {A B : Type 0} → M A → (A → M B) → M B
  bind m f w = elim (m w).1 [ ok a ↦ f a (m w).0 | err e ↦ ((m w).0, err e) ]

  -- `.context(..)`
  abbrev pub context : {A : Type 0} → Text → M A → M A
  context c m w = ((m w).0, elim (m w).1 [ ok a ↦ ok a | err e ↦ err (c ++ codes ": " ++ e) ])

  -- A result that is looked at, in place of `?`.
  abbrev pub attempt : {A : Type 0} → M A → M (Result Text A)
  attempt m w = ((m w).0, ok (m w).1)

  -- A value that needs no world, whose error is rendered as `c`.
  abbrev pub lift : {E A : Type 0} → Text → Result E A → M A
  lift c (ok a) w = (w, ok a)
  lift c (err e) w = (w, err c)

  abbrev pub lift_option : {A : Type 0} → Text → Option A → M A
  lift_option c none w = (w, err c)
  lift_option c (some a) w = (w, ok a)

  abbrev pub read_clock : M DateTime
  read_clock w = ((ports.now w).0, ok (ports.now w).1)

  abbrev pub fresh_id : M ℕ
  fresh_id w = ((ports.fresh w).0, ok (ports.fresh w).1)
