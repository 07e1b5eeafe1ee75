-- ===== src/Core/Ids.antt =====
-- The identifiers of crates/lnxdrive-core/src/domain/newtypes.rs. A UUID is the number that its 128
-- bits make; the program only creates and compares UUIDs. `char::is_alphanumeric` is Unicode's table
-- and a parameter here. `usize` has 64 bits and wraps around, as in a release build.
use lnxdrive.Prelude.{
  ℕ, ◌+◌, ◌-◌, ◌*◌, ◌/◌, ◌%◌, ◌^◌, Bool, not, ◌||◌, if◌then◌else◌, ◌==◌, [], ◌∷◌, reverse, every,
  Text, byte_len, is_empty, Result, ok, err,
}
use lnxdrive.Core.Error.{DomainError, invalid_remote_id, invalid_hash, invalid_delta_token}
pub mod Accepted

abbrev pub UniqueId : Type 0
UniqueId = ℕ

abbrev pub AccountId : Type 0
AccountId = ℕ

abbrev pub SessionId : Type 0
SessionId = ℕ

abbrev pub ConflictId : Type 0
ConflictId = ℕ

pub record RemoteId : Type 0 where
  pub text : Text

pub record FileHash : Type 0 where
  pub text : Text

pub record DeltaToken : Type 0 where
  pub text : Text

unfoldable pub new_delta_token : Text → Result DomainError DeltaToken
new_delta_token token =
    if is_empty token then err invalid_delta_token else ok (record { text = token })

-- How many characters `x` stand in front.
unfoldable pub leading : ℕ → Text → ℕ
leading x [] = 0
leading x (c ∷ s) = let rest = leading x s in if c == x then 1 + rest else 0

abbrev pub usize_mod : ℕ
usize_mod = 2 ^ 64

unfoldable pub base64_decoded_len : Text → ℕ
base64_decoded_len s =
    let len = byte_len s in
    let padding = leading b'=' (reverse s) in
    (len * 3 % usize_mod / 4 + usize_mod - padding) % usize_mod

abbrev pub expected_decoded_len : ℕ
expected_decoded_len = 20

module _ (is_alphanumeric : ℕ → Bool) where
  abbrev pub is_id_char : ℕ → Bool
  is_id_char c = is_alphanumeric c || c == b'!' || c == b'-' || c == b'_'

  unfoldable pub new_remote_id : Text → Result DomainError RemoteId
  new_remote_id id =
      if is_empty id
      then err invalid_remote_id
      else if not (every is_id_char id)
      then err invalid_remote_id
      else ok (record { text = id })

  abbrev pub is_base64_char : ℕ → Bool
  is_base64_char c = is_alphanumeric c || c == b'+' || c == b'/' || c == b'='

  unfoldable pub new_file_hash : Text → Result DomainError FileHash
  new_file_hash hash =
      if is_empty hash
      then err invalid_hash
      else if not (every is_base64_char hash)
      then err invalid_hash
      else if not (base64_decoded_len hash == expected_decoded_len)
      then err invalid_hash
      else ok (record { text = hash })
