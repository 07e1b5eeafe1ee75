-- ===== src/Lib.antt =====
-- LNXDrive is a OneDrive client for Linux: a daemon keeps a local directory and a OneDrive in sync,
-- with files on demand by FUSE. This library models its core in total functions.
--
-- The parts and how they interact. The crate lnxdrive-core has the domain: validated paths and
-- identifiers, the synchronised item with its state machine, sessions, conflicts and accounts; and the
-- ports, traits for the cloud, the disk and the repository of items. The engine of lnxdrive-sync
-- runs a cycle over these: it queries the changes of the cloud since the delta token of the account,
-- applies each (creation, update, deletion) to disk and repository, scans the disk for local
-- changes, uploads these, stores the new token, and counts all of it in a session. Requests to
-- Microsoft Graph pass a rate limiter (lnxdrive-graph); files on demand are inodes of a table that
-- leads to items (lnxdrive-fuse). The repository of lnxdrive-cache keeps accounts, items and sessions in
-- tables; the file system writes to it through one queue, and a sweep over it removes the content of
-- hydrated files when the content cache grows above a threshold of the configuration. The mounted file
-- system answers the kernel from the inode table; an open of a file that is online starts a download
-- into the cache, which marks the item as hydrating and then as hydrated; a read waits for it; and the
-- last close of a hydrated file may dehydrate it.
--
-- Files and code:
--   Prelude              numbers, Booleans, lists, texts (lists of code points), signed integers,
--                        results: shared operations and lemmas
--   Core/Error           DomainError of crates/lnxdrive-core/src/domain/errors.rs
--   Core/RemotePath      RemotePath of crates/lnxdrive-core/src/domain/newtypes.rs: new, root, join,
--                        parent, file_name over texts
--   Core/SyncPath        SyncPath of the same file: new, new_within_root, join, relative_to,
--                        normalize_path over lists of components
--   Core/Ids             RemoteId, FileHash, DeltaToken of the same file, and the UUID newtypes
--   Core/ItemState, Core/Metadata, Core/ErrorInfo, Core/SyncItem, Core/Transition
--                        crates/lnxdrive-core/src/domain/sync_item.rs: ItemState and its predicates,
--                        permissions and metadata, ErrorInfo with its retry schedule, SyncItem with
--                        its constructors and setters, and every state-changing method
--   Core/Session, Core/Conflict, Core/Account
--                        session.rs, conflict.rs and account.rs beside it
--   Core/Config          crates/lnxdrive-core/src/config.rs: the records with their defaults; the
--                        validation and the builder are in child modules
--   Core/Time            instants and durations as signed nanoseconds; what chrono can represent is a
--                        parameter
--   Cache/States         the text forms of states in crates/lnxdrive-cache/src/repository.rs
--   Cache/Repository     the statements of SqliteStateRepository in the same file, as operations on lists
--                        of rows, with the keys of crates/lnxdrive-cache/src/migrations;
--                        Accounts has those that save accounts and sessions
--   Sync/Ports           the traits of crates/lnxdrive-core/src/ports that the engine calls, with
--                        clock, random identifiers and sleeping: one record of operations on a world
--                        that is a parameter
--   Sync/Retry, Sync/Bulk, Sync/Remote, Sync/Scan, Sync/Local, Sync/Cycle
--                        crates/lnxdrive-sync/src/engine.rs: with_retry, the bulk mode,
--                        process_delta_item with its handlers, scan_local_changes, the local
--                        handlers, and sync
--   Sync/Watcher         ChangeEvent and DebouncedChangeQueue of crates/lnxdrive-sync/src/watcher.rs
--   Sync/Scheduler       scheduler.rs beside it: the loop over signals in any order
--   Graph/TokenBucket, Graph/RateLimiter
--                        crates/lnxdrive-graph/src/rate_limit.rs: TokenBucket and the buckets of
--                        AdaptiveRateLimiter; the operations of f64 are a parameter
--   Graph/Http           what the crate asks of reqwest and serde: requests to a server that is a
--                        parameter, and decoded JSON
--   Graph/Delta, Graph/Upload
--                        delta.rs and upload.rs beside it: items and pages of changes, uploads in chunks
--   Fuse/InodeEntry, Fuse/InodeTable
--                        inode_entry.rs and inode.rs of crates/lnxdrive-fuse/src; Fuse/Maps has the
--                        maps
--   Fuse/Error           error.rs beside it
--   Fuse/WriteSerializer write_serializer.rs beside it: the queue of writes; Contract says what each does
--                        to the map from identifiers to rows
--   Fuse/ContentCache    cache.rs beside it, over a list of named files
--   Fuse/Dehydration     dehydration.rs beside it: policy, report, manual calls; Sweep has run_sweep, with
--                        the content cache, the clock and the flag that asks to stop as a host; Cached makes
--                        the content cache the host's
--   Fuse/Hydration       hydration.rs beside it: requests, the manager with its active downloads, the
--                        waits, pins and walks; Download has the download task, with the writes to
--                        disk of crates/lnxdrive-graph/src/provider.rs, over a server that is a parameter
--   Fuse/FileSystem      filesystem.rs beside it: the state of the mounted file system, and the calls of
--                        the kernel as changes of it; Handles has open, read, write, release and the
--                        tasks that are started, Names and Names/Create what changes directories, Attributes those of
--                        xattr.rs, Init the mount; Steps has the runs of these in any order,
--                        and Started those that begin with the mount
--   Examples             concrete inputs
-- A child module of one of these holds what is proved about it.
--
-- How the code is rendered. Methods that change `self` return the new value, beside their result where
-- they may fail. Counters wrap as in a release build, modulo 2^32 or 2^64. A `PathBuf` is the list of
-- its components. The clock and fresh UUIDs are arguments of the domain's functions and operations of
-- the engine's world. An error of the engine is its rendering; where the source only counts and reports
-- a message, the model keeps the kind of the error and its rendering. `walk_directory` takes the depth
-- of directories as fuel, which is an argument of `sync`, and reports an error below it; a directory is
-- read at once. The loops of a sweep and over the pages of changes take
-- fuel, and say whether it was enough; that over the chunks of an upload takes the length of the content.
-- The chunks of a download, the walks of a pin through directories and the names up to the root take
-- fuel too, and have no result where it is used up. Tasks that a handler starts wait in a list, and
-- may run at any time behind it; while a handler waits for a download, others change the downloads.
--
-- Not modelled: logging, serialisation, the audit trail and the conflicts of the repository, the
-- unmount, authentication and the requests of the Graph client, the watcher's threads, and the crates
-- for IPC, daemon and command line, which are for the most part calls of other crates; ratios in
-- floating point; the duration of a cycle; the receiver of watcher events, which the engine stores and
-- does not read.
pub mod Prelude
pub mod Core
pub mod Cache
pub mod Sync
pub mod Graph
pub mod Fuse
mod Examples
