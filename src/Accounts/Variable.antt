-- ===== src/Accounts/Variable.antt =====
-- accounts.ts: the accounts that end in bytes of any length.
pub mod Layout
use ika_pre_alpha.Prelude.{ℕ, ◌+◌, Bool, not, ◌&&◌, Option, none, some, ◌==◌, leb, length, drop}
use ika_pre_alpha.Prelude.Bytes.{Bytes}
use ika_pre_alpha.Accounts.{AccountEntry, slice, byte_at, read_u16, read_u64, when}

-- `data_len` is the table's `header_len`.
abbrev pub encrypted_user_secret_key_share_entry : AccountEntry
encrypted_user_secret_key_share_entry = record { discriminator = 101; data_len = 214 }

abbrev pub encryption_key_entry : AccountEntry
encryption_key_entry = record { discriminator = 107; data_len = 120 }

-- The fixed part, the first byte, and the whole length, which the number at `size_at` fixes.
pub is_whole : Bytes → AccountEntry → (size_at : ℕ) → Bool
is_whole bytes entry size_at =
    leb entry.data_len (length bytes)
    && (byte_at bytes 0 == entry.discriminator
        && length bytes == entry.data_len + read_u16 bytes size_at)

pub record EncryptedUserSecretKeyShareAccount : Type 0 where
  pub dwallet : Bytes
  pub encryption_key_owner : Bytes
  pub source_share : Bytes
  pub is_re_encrypted : Bool
  pub created_epoch : ℕ
  pub bump : ℕ
  pub accepted : Bool
  pub reserved : Bytes
  pub acceptance_signature : Bytes
  pub acceptance_digest : Bytes
  pub encrypted_share : Bytes

pub read_encrypted_user_secret_key_share_unverified :
    Bytes → Option EncryptedUserSecretKeyShareAccount
read_encrypted_user_secret_key_share_unverified bytes =
    when (is_whole bytes encrypted_user_secret_key_share_entry 116) (record {
      dwallet = slice bytes 2 34;
      encryption_key_owner = slice bytes 34 66;
      source_share = slice bytes 66 98;
      is_re_encrypted = byte_at bytes 98 == 1;
      created_epoch = read_u64 bytes 99;
      bump = byte_at bytes 107;
      accepted = byte_at bytes 108 == 1;
      reserved = slice bytes 109 116;
      acceptance_signature = slice bytes 118 182;
      acceptance_digest = slice bytes 182 214;
      encrypted_share = drop 214 bytes;
    })

pub record EncryptionKeyAccount : Type 0 where
  pub signer_public_key : Bytes
  pub signature_scheme : ℕ
  pub curve : ℕ
  pub signature : Bytes
  pub created_epoch : ℕ
  pub bump : ℕ
  pub encryption_key : Bytes

pub read_encryption_key_unverified : Bytes → Option EncryptionKeyAccount
read_encryption_key_unverified bytes = when (is_whole bytes encryption_key_entry 37) (record {
  signer_public_key = slice bytes 2 34;
  signature_scheme = byte_at bytes 34;
  curve = read_u16 bytes 35;
  signature = slice bytes 39 103;
  created_epoch = read_u64 bytes 103;
  bump = byte_at bytes 111;
  encryption_key = drop 120 bytes;
})
