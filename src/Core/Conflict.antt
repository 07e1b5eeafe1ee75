-- ===== src/Core/Conflict.antt =====
-- crates/lnxdrive-core/src/domain/conflict.rs: a conflict between two versions of an item, and its
-- resolution.
use lnxdrive.Prelude.{
  ℕ, ◌≡◌, Bool, true, if◌then◌else◌, Option, none, some, is_some, Text, codes, arith,
}
use lnxdrive.Core.Ids.{UniqueId, ConflictId, FileHash}
use lnxdrive.Core.Time.{DateTime}

pub record VersionInfo : Type 0 where
  pub hash : FileHash
  pub size_bytes : ℕ
  pub modified_at : DateTime
  pub etag : Option Text

unfoldable pub new_version : FileHash → ℕ → DateTime → VersionInfo
new_version hash size_bytes modified_at = record {
  hash = hash;
  size_bytes = size_bytes;
  modified_at = modified_at;
  etag = none;
}

unfoldable pub with_etag : VersionInfo → Text → VersionInfo
with_etag self etag = record self { etag = some etag }

pub data Resolution : Type 0 where
  keep_local keep_remote keep_both manual : Resolution

pub data ResolutionSource : Type 0 where
  user policy system : ResolutionSource

unfoldable pub display_resolution : Resolution → Text
display_resolution keep_local = codes "keep_local"
display_resolution keep_remote = codes "keep_remote"
display_resolution keep_both = codes "keep_both"
display_resolution manual = codes "manual"

unfoldable pub display_source : ResolutionSource → Text
display_source user = codes "user"
display_source policy = codes "policy"
display_source system = codes "system"

pub record Conflict : Type 0 where
  pub id : ConflictId
  pub item_id : UniqueId
  pub detected_at : DateTime
  pub local_version : VersionInfo
  pub remote_version : VersionInfo
  pub resolution : Option Resolution
  pub resolved_at : Option DateTime
  pub resolved_by : Option ResolutionSource

unfoldable pub new : ConflictId → DateTime → UniqueId → VersionInfo → VersionInfo → Conflict
new id now item_id local_version remote_version = record {
  id = id;
  item_id = item_id;
  detected_at = now;
  local_version = local_version;
  remote_version = remote_version;
  resolution = none;
  resolved_at = none;
  resolved_by = none;
}

unfoldable pub is_resolved : Conflict → Bool
is_resolved self = is_some self.resolution

unfoldable pub resolve : Conflict → Resolution → ResolutionSource → DateTime → Conflict
unfolding is_resolved
resolve self resolution source now = if is_resolved self then self else record self {
  resolution = some resolution;
  resolved_at = some now;
  resolved_by = some source;
}

-- A conflict has a resolution, its time and its source all three or not at all.
pub record IsValid (self : Conflict) : Type 0 where
  pub timed : is_some self.resolved_at ≡ is_some self.resolution
  pub sourced : is_some self.resolved_by ≡ is_some self.resolution

-- A new conflict is valid, `resolve` keeps that and always ends resolved, and the first resolution
-- stands: a second `resolve` changes nothing.
pub resolve_once :
    (self : Conflict) (first second : Resolution) (source other : ResolutionSource)
    (now later : DateTime)
    → IsValid self
    → IsValid (resolve self first source now)
      × (is_resolved (resolve self first source now) ≡ true)
      × (resolve (resolve self first source now) second other later ≡ resolve self first source now)
unfolding resolve
resolve_once self first second source other now later v = ground arith

-- The texts of the resolutions tell them apart.
pub display_resolution_injective :
    (a b : Resolution) → display_resolution a ≡ display_resolution b → a ≡ b
unfolding display_resolution
display_resolution_injective a b h = ground arith
