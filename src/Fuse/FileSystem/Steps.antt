-- ===== src/Fuse/FileSystem/Steps.antt =====
-- The runs of the file system of crates/lnxdrive-fuse/src/filesystem.rs: handlers and tasks, in any order.
use lnxdrive.Prelude.{
  ℕ, ◌≤◌, ◌≡◌, refl, Bool-cases, inl, inr, Option, none, some, Option-cases, List, Text, Result,
  Result-cases, ok, err, arith, ltb,
}
use lnxdrive.Core.Ids.{UniqueId}
use lnxdrive.Core.ItemState.{is_hydrated, online, modified, deleted}
use lnxdrive.Core.Time.{DateTime}
use lnxdrive.Cache.Repository.{Repository}
use lnxdrive.Fuse.Dehydration.{
  Host, DehydrationPolicy, dehydrate_path, notify_file_closed, threshold_bytes, removed,
  update_state_online,
}
use lnxdrive.Fuse.Dehydration.Cached.{Surroundings, host_of}
use lnxdrive.Fuse.Error.{FuseError}
use lnxdrive.Fuse.Hydration.{Hydrations}
use lnxdrive.Fuse.InodeTable
use lnxdrive.Fuse.InodeTable.{InodeTable, get_by_item_id}
use lnxdrive.Fuse.FileSystem.{
  LnxDriveFs, Mount, Answer, Spawned, start_hydration, touch, mark_modified, mark_deleted,
  notify_closed, lookup, forget, opendir,
}
use lnxdrive.Fuse.FileSystem.Handles.{State, open_file, read, write, release, run_task}
use lnxdrive.Fuse.FileSystem.Names.{mkdir, rmdir, rename, unlink}
use lnxdrive.Fuse.FileSystem.Names.Create.{Created, create}
use lnxdrive.Fuse.FileSystem.Counters.{state_keeps_count, access_keeps_count}
use lnxdrive.Fuse.FileSystem.Mounted.{
  IsMounted, Keeps, kept, lookup-IsMounted, forget-IsMounted, opendir-IsMounted,
  open_file-IsMounted, release-IsMounted, write-IsMounted,
}
use lnxdrive.Fuse.FileSystem.Mounted.Reads.{read-IsMounted, started-Keeps}
use lnxdrive.Fuse.FileSystem.Mounted.Created.{create-IsMounted}
use lnxdrive.Fuse.FileSystem.Mounted.Names.{
  mkdir-IsMounted, rmdir-IsMounted, rename-IsMounted, unlink-IsMounted,
}

module _ (host : Host) where
  removed_count :
      (r : Repository) (id : UniqueId) (size : ℕ)
      (removal : host.World × Result FuseError (Unit {0}))
      → (removed host r id size removal).1.next_inode ≡ r.next_inode
  removed_count r id size (w, err e) = refl
  removed_count r id size (w, ok _) =
      let now = (host.now w).1 in
      elim (Result-cases (update_state_online host r id w).2) [
        | inl (u, h) ↦ rw h (state_keeps_count r now id online)
        | inr (e, h) ↦ rw h (state_keeps_count r now id online)
      ]

  path_count :
      (table : InodeTable) (r : Repository) (w : host.World) (ino : ℕ)
      → (dehydrate_path host table r w ino).1.next_inode ≡ r.next_inode
  unfolding dehydrate_path
  path_count table r w ino = elim (Option-cases (InodeTable.get table ino)) [
    | inl gone ↦ rw gone refl
    | inr (entry, found) ↦ elim (Bool-cases (ltb 0 entry.open_handles)) [
      | inl e ↦ rw (found, e) refl
      | inr e ↦ elim (Bool-cases (is_hydrated entry.state)) [
        | inr d ↦ rw (found, e, d) refl
        | inl d ↦ elim (Option-cases entry.remote_id) [
          | inl none_there ↦ rw (found, e, d, none_there) refl
          | inr (id, there) ↦
              rw (found, e, d, there)
                (removed_count r entry.item_id (host.file_size id w) (host.remove id w))
        ]
      ]
    ]
  ]

  notify_count :
      (policy : DehydrationPolicy) (table : InodeTable) (r : Repository) (w : host.World) (ino : ℕ)
      → (notify_file_closed host policy table r w ino).1.next_inode ≡ r.next_inode
  unfolding notify_file_closed
  notify_count policy table r w ino = elim (Result-cases (host.disk_usage w)) [
    | inr (e, h) ↦ rw (notify_file_closed, h) refl
    | inl (usage, h) ↦ elim (Bool-cases (ltb (threshold_bytes policy) usage)) [
      | inl e ↦ rw (notify_file_closed, h, e) (path_count table r w ino)
      | inr e ↦ rw (notify_file_closed, h, e) refl
    ]
  ]

module _ (around : Surroundings) (mount : Mount) (policy : DehydrationPolicy) where
  task-Keeps :
      (w : around.World) (self : LnxDriveFs) (task : Spawned)
      → Keeps self (run_task around mount policy (w, self) task).1
  unfolding run_task
  task-Keeps w self (start_hydration ino id remote_id size) =
      started-Keeps mount self (around.now w).1 ino id remote_id size
  task-Keeps w self (touch id) = record {
    same_table = refl;
    counts_up =
        omega (
          arith,
          access_keeps_count self.hydrations.repository (around.now w).1 (around.now w).1 id,
        );
  }
  task-Keeps w self (mark_modified id) = record {
    same_table = refl;
    counts_up =
        omega (arith, state_keeps_count self.hydrations.repository (around.now w).1 id modified);
  }
  task-Keeps w self (mark_deleted id) = record {
    same_table = refl;
    counts_up =
        omega (arith, state_keeps_count self.hydrations.repository (around.now w).1 id deleted);
  }
  task-Keeps w self (notify_closed ino) = record {
    same_table = refl;
    counts_up = omega (
      arith,
      notify_count (host_of around mount.hash_remote_id) policy self.inode_table
          self.hydrations.repository (self.hydrations.files, w) ino,
    );
  }

  -- A call of the kernel or a task. While `read` waits, other tasks take no inode back; a new UUID is not in the
  -- table; and `create` has an answer.
  pub data Step : State around mount policy → State around mount policy → Type 0 where
    looks_up :
        {w : around.World} {self : LnxDriveFs} (parent : ℕ) (name : Option Text)
        → Step (w, self) (w, (lookup mount self parent name).0)
    forgets :
        {w : around.World} {self : LnxDriveFs} (ino n : ℕ) → Step (w, self) (w, forget self ino n)
    opens_dir :
        {w : around.World} {self : LnxDriveFs} (ino : ℕ) → Step (w, self) (w, (opendir self ino).0)
    opens :
        {w : around.World} {self : LnxDriveFs} (ino : ℕ)
        → Step (w, self) (w, (open_file mount self ino).0)
    reads :
        {w : around.World} {self : LnxDriveFs} (others : ℕ → Hydrations → Hydrations × List ℕ)
        (now : DateTime) (ino offset size : ℕ)
        → ((k : ℕ) (h : Hydrations)
            → h.repository.next_inode ≤ (others k h).0.repository.next_inode)
        → Step (w, self) (w, (read others mount self now ino offset size).0)
    writes :
        {w : around.World} {self : LnxDriveFs} (ino offset : ℕ) (bytes : List ℕ)
        → Step (w, self) (w, (write mount self ino offset bytes).0)
    releases :
        {w : around.World} {self : LnxDriveFs} (ino : ℕ) → Step (w, self) (w, (release self ino).0)
    makes_dir :
        {w : around.World} {self : LnxDriveFs} (fresh : UniqueId) (now : DateTime) (parent : ℕ)
        (name : Option Text) (mode umask : ℕ)
        → get_by_item_id self.inode_table fresh ≡ none
        → Step (w, self) (w, (mkdir mount self fresh now parent name mode umask).0)
    removes_dir :
        {w : around.World} {self : LnxDriveFs} (parent : ℕ) (name : Option Text)
        → Step (w, self) (w, (rmdir self parent name).0)
    renames :
        {w : around.World} {self : LnxDriveFs} (now : DateTime) (parent : ℕ) (name : Option Text)
        (newparent : ℕ) (newname : Option Text)
        → Step (w, self) (w, (rename self now parent name newparent newname).0)
    creates :
        {w : around.World} {self : LnxDriveFs} (fresh : UniqueId) (now : DateTime) (parent : ℕ)
        (name : Option Text) (mode umask flags fuel : ℕ) (result : Answer Created)
        → get_by_item_id self.inode_table fresh ≡ none
        → create mount self fresh now parent name mode umask flags fuel ≡ some result
        → Step (w, self) (w, result.0)
    unlinks :
        {w : around.World} {self : LnxDriveFs} (now : DateTime) (parent : ℕ) (name : Option Text)
        → Step (w, self) (w, (unlink mount self now parent name).0)
    runs :
        {w : around.World} {self : LnxDriveFs} (task : Spawned)
        → Step (w, self) (run_task around mount policy (w, self) task)

  pub data Steps : State around mount policy → State around mount policy → Type 0 where
    stop : {s : State around mount policy} → Steps s s
    next : {s t u : State around mount policy} → Step s t → Steps t u → Steps s u

  step-IsMounted : {s t : State around mount policy} → Step s t → IsMounted s.1 → IsMounted t.1
  step-IsMounted {s = (w, self)} (looks_up parent name) v =
      lookup-IsMounted mount self parent name v
  step-IsMounted {s = (w, self)} (forgets ino n) v = forget-IsMounted mount self ino n v
  step-IsMounted {s = (w, self)} (opens_dir ino) v = opendir-IsMounted mount self ino v
  step-IsMounted {s = (w, self)} (opens ino) v = open_file-IsMounted mount self ino v
  step-IsMounted {s = (w, self)} (reads others now ino offset size up) v =
      read-IsMounted mount others up self now ino offset size v
  step-IsMounted {s = (w, self)} (writes ino offset bytes) v =
      write-IsMounted mount self ino offset bytes v
  step-IsMounted {s = (w, self)} (releases ino) v = release-IsMounted mount self ino v
  step-IsMounted {s = (w, self)} (makes_dir fresh now parent name mode umask unused) v =
      mkdir-IsMounted mount self fresh now parent name mode umask unused v
  step-IsMounted {s = (w, self)} (removes_dir parent name) v =
      rmdir-IsMounted mount self parent name v
  step-IsMounted {s = (w, self)} (renames now parent name newparent newname) v =
      rename-IsMounted mount self now parent name newparent newname v
  step-IsMounted {s = (w, self)}
        (creates fresh now parent name mode umask flags fuel result unused ended) v =
      create-IsMounted mount self fresh now parent name mode umask flags fuel result unused v ended
  step-IsMounted {s = (w, self)} (unlinks now parent name) v =
      unlink-IsMounted mount self now parent name v
  step-IsMounted {s = (w, self)} (runs task) v = kept (task-Keeps w self task) v

  -- Where the two maps of the inode table agree, and no inode of it is one that the queue of writes has still to hand
  -- out, it is so after any calls of the kernel and any tasks, in any order.
  pub steps-IsMounted :
      {s t : State around mount policy} → Steps s t → IsMounted s.1 → IsMounted t.1
  steps-IsMounted stop v = v
  steps-IsMounted (next step steps) v = steps-IsMounted steps (step-IsMounted step v)
