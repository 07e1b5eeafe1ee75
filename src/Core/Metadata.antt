-- ===== src/Core/Metadata.antt =====
-- `Permissions` and `ItemMetadata` of crates/lnxdrive-core/src/domain/sync_item.rs.
use Prim.Native.Nat.{bit_and, bit_or}
use lnxdrive.Prelude.{
  ℕ, ◌≡◌, refl, Bool, true, false, not, if◌then◌else◌, ◌==◌, Option, none, some, Text,
}
use lnxdrive.Core.Time.{DateTime}

pub record Permissions : Type 0 where
  pub read : Bool
  pub write : Bool
  pub execute : Bool

unfoldable pub all : Permissions
all = record { read = true; write = true; execute = true }

unfoldable pub read_only : Permissions
read_only = record { read = true; write = false; execute = false }

unfoldable pub from_mode : ℕ → Permissions
from_mode mode = record {
  read = not (bit_and mode 0o400 == 0);
  write = not (bit_and mode 0o200 == 0);
  execute = not (bit_and mode 0o100 == 0);
}

unfoldable pub to_mode : Permissions → ℕ
to_mode self =
    let mode : ℕ = 0 in
    let mode1 = if self.read then bit_or mode 0o400 else mode in
    let mode2 = if self.write then bit_or mode1 0o200 else mode1 in
    if self.execute then bit_or mode2 0o100 else mode2

-- Permissions survive the way through a mode, and their mode has no other bits.
pub from_mode-to_mode :
    (p : Permissions) → (from_mode (to_mode p) ≡ p) × (bit_and (to_mode p) 0o700 ≡ to_mode p)
unfolding from_mode to_mode
from_mode-to_mode p = by_cases p.read p.write p.execute
  where
    by_cases :
        (r w x : Bool)
        → let q : Permissions = record { read = r; write = w; execute = x } in
          (from_mode (to_mode q) ≡ q) × (bit_and (to_mode q) 0o700 ≡ to_mode q)
    by_cases true true true = (refl, refl)
    by_cases true true false = (refl, refl)
    by_cases true false true = (refl, refl)
    by_cases true false false = (refl, refl)
    by_cases false true true = (refl, refl)
    by_cases false true false = (refl, refl)
    by_cases false false true = (refl, refl)
    by_cases false false false = (refl, refl)

pub record ItemMetadata : Type 0 where
  pub is_directory : Bool
  pub mime_type : Option Text
  pub created_at : DateTime
  pub etag : Option Text
  pub permissions : Permissions

unfoldable pub new_file : DateTime → Option Text → ItemMetadata
unfolding all
new_file now mime_type = record {
  is_directory = false;
  mime_type = mime_type;
  created_at = now;
  etag = none;
  permissions = all;
}

unfoldable pub new_directory : DateTime → ItemMetadata
unfolding all
new_directory now = record {
  is_directory = true;
  mime_type = none;
  created_at = now;
  etag = none;
  permissions = all;
}

unfoldable pub set_etag : ItemMetadata → Text → ItemMetadata
set_etag self etag = record self { etag = some etag }

unfoldable pub clear_etag : ItemMetadata → ItemMetadata
clear_etag self = record self { etag = none }

unfoldable pub set_permissions : ItemMetadata → Permissions → ItemMetadata
set_permissions self permissions = record self { permissions = permissions }

unfoldable pub set_mime_type : ItemMetadata → Option Text → ItemMetadata
set_mime_type self mime_type = record self { mime_type = mime_type }
