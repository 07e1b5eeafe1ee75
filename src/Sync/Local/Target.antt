-- ===== src/Sync/Local/Target.antt =====
-- Where an upload goes: `split_remote_path` of crates/lnxdrive-sync/src/engine.rs.
use lnxdrive.Prelude.{◌≡◌, ok, refl, Text}
use lnxdrive.Core.RemotePath
use lnxdrive.Core.RemotePath.{RemotePath}
use lnxdrive.Core.RemotePath.Family.{parent-join}
use lnxdrive.Core.RemotePath.Valid.{IsValid, new-IsValid_iff, join-IsValid}
use lnxdrive.Sync.Local.{split_remote_path}

-- The text of a path that was made by joining a name to a valid path is split into these two.
pub split_remote_path-join :
    (p : RemotePath) (name : Text) {q : RemotePath}
    → IsValid p
    → RemotePath.join p name ≡ ok q
    → split_remote_path q.text ≡ ok (p, name)
unfolding split_remote_path RemotePath.new
split_remote_path-join p name {q} v h =
    let made : RemotePath.new q.text ≡ ok q =
      (new-IsValid_iff q.text q).1 (join-IsValid p name h, refl) in
    let parts = parent-join p name v h in rw (made, parts.1, parts.0) refl
