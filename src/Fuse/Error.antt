-- ===== src/Fuse/Error.antt =====
-- crates/lnxdrive-fuse/src/error.rs: the errors of the file system, how they read, and their numbers in
-- Linux.
use lnxdrive.Prelude.{ℕ, ◌++◌, Text, codes}

pub data FuseError : Type 0 where
  not_found permission_denied already_exists not_empty io_error : Text → FuseError
  not_a_directory is_a_directory disk_full xattr_not_found : Text → FuseError
  xattr_buffer_too_small : FuseError
  invalid_argument name_too_long hydration_failed : Text → FuseError
  cache_error database_error : Text → FuseError

unfoldable pub to_string : FuseError → Text
to_string (not_found m) = codes "not found: " ++ m
to_string (permission_denied m) = codes "permission denied: " ++ m
to_string (already_exists m) = codes "already exists: " ++ m
to_string (not_empty m) = codes "directory not empty: " ++ m
to_string (io_error m) = codes "I/O error: " ++ m
to_string (not_a_directory m) = codes "not a directory: " ++ m
to_string (is_a_directory m) = codes "is a directory: " ++ m
to_string (disk_full m) = codes "disk full: " ++ m
to_string (xattr_not_found m) = codes "extended attribute not found: " ++ m
to_string xattr_buffer_too_small = codes "buffer too small for extended attribute"
to_string (invalid_argument m) = codes "invalid argument: " ++ m
to_string (name_too_long m) = codes "name too long: " ++ m
to_string (hydration_failed m) = codes "hydration failed: " ++ m
to_string (cache_error m) = codes "cache error: " ++ m
to_string (database_error m) = codes "database error: " ++ m

unfoldable pub errno : FuseError → ℕ
errno (not_found _) = 2
errno (permission_denied _) = 13
errno (already_exists _) = 17
errno (not_empty _) = 39
errno (not_a_directory _) = 20
errno (is_a_directory _) = 21
errno (disk_full _) = 28
errno (xattr_not_found _) = 61
errno xattr_buffer_too_small = 34
errno (invalid_argument _) = 22
errno (name_too_long _) = 36
errno (io_error _) = 5
errno (hydration_failed _) = 5
errno (cache_error _) = 5
errno (database_error _) = 5
