-- ===== src/Accounts.antt =====
-- sdk/solana/src/accounts.ts and the account table of wire-tables-data.ts: the accounts of the Solana
-- program read from their bytes. A slice that ends past the data stops there, and a byte past the
-- data, which no account of the stated length has, reads as 0. Numbers are read little-endian.
pub mod Chunks
pub mod Vouchers
pub mod Variable
mod Tests
use ika_pre_alpha.Prelude.{
  ℕ, ◌+◌, ◌-◌, ◌*◌, Bool, true, false, not, ◌&&◌, Option, none, some, List, [], ◌∷◌, ◌==◌, leb, ltb,
  if◌then◌else◌, length, take, drop, get_or,
}
use ika_pre_alpha.Prelude.Bytes.{Bytes, from_le}

-- An account's first byte, and its length, or the length of its fixed part.
pub record AccountEntry : Type 0 where
  pub discriminator : ℕ
  pub data_len : ℕ

abbrev pub dwallet_coordinator_entry : AccountEntry
dwallet_coordinator_entry = record { discriminator = 96; data_len = 631 }

abbrev pub dwallet_entry : AccountEntry
dwallet_entry = record { discriminator = 97; data_len = 185 }

abbrev pub network_encryption_key_entry : AccountEntry
network_encryption_key_entry = record { discriminator = 98; data_len = 199 }

abbrev pub gas_deposit_entry : AccountEntry
gas_deposit_entry = record { discriminator = 99; data_len = 179 }

abbrev pub network_reconfiguration_output_entry : AccountEntry
network_reconfiguration_output_entry = record { discriminator = 102; data_len = 182 }

-- `data.slice(from, to)` and `data.subarray(from, to)`
abbrev pub slice : Bytes → (from to : ℕ) → Bytes
slice bytes from to = take (to - from) (drop from bytes)

abbrev pub byte_at : Bytes → ℕ → ℕ
byte_at bytes offset = get_or bytes offset 0

pub read_u16 : Bytes → ℕ → ℕ
read_u16 bytes offset = byte_at bytes offset + 256 * byte_at bytes (offset + 1)

pub read_u64 : Bytes → ℕ → ℕ
read_u64 bytes offset = from_le (slice bytes offset (offset + 8))

-- `Math.min`
abbrev pub at_most : ℕ → ℕ → ℕ
at_most n limit = if leb n limit then n else limit

pub is_account : Bytes → AccountEntry → Bool
is_account bytes entry = leb entry.data_len (length bytes) && byte_at bytes 0 == entry.discriminator

abbrev pub when {ℓ} : {A : Type ℓ} → Bool → A → Option A
when false a = none
when true a = some a

pub record DWalletCoordinatorAccount : Type 0 where
  pub epoch : ℕ
  pub chain_number : ℕ
  pub network : ℕ
  pub chain_identifier : Bytes
  pub ika_mint : Bytes
  pub treasury_vault : Bytes

pub read_dwallet_coordinator : Bytes → Option DWalletCoordinatorAccount
read_dwallet_coordinator bytes = when (is_account bytes dwallet_coordinator_entry) (record {
  epoch = read_u64 bytes 2;
  chain_number = from_le (slice bytes 569 573);
  network = byte_at bytes 630;
  chain_identifier = slice bytes 117 (117 + at_most (byte_at bytes 116) 40);
  ika_mint = slice bytes 20 52;
  treasury_vault = slice bytes 52 84;
})

pub record DWalletAccount : Type 0 where
  pub owner : Bytes
  pub curve : ℕ
  pub state : ℕ
  pub public_key : Bytes
  pub created_epoch : ℕ
  pub noa_public_key : Bytes
  pub is_imported : Bool
  pub bump : ℕ
  pub imported_session_identifier : Option Bytes

pub read_dwallet : Bytes → Option DWalletAccount
read_dwallet bytes = when (is_account bytes dwallet_entry) (record {
  owner = slice bytes 2 34;
  curve = read_u16 bytes 34;
  state = byte_at bytes 36;
  public_key = slice bytes 38 (38 + at_most (byte_at bytes 37) 65);
  created_epoch = read_u64 bytes 103;
  noa_public_key = slice bytes 111 143;
  is_imported = byte_at bytes 143 == 1;
  bump = byte_at bytes 144;
  imported_session_identifier = when (byte_at bytes 143 == 1) (slice bytes 153 185);
})

abbrev pub record_proof_slot_len : ℕ
record_proof_slot_len = 98

pub read_record_proof : Bytes → ℕ → Option Bytes
read_record_proof bytes offset =
    let size = byte_at bytes offset in
    if ltb record_proof_slot_len size
    then none
    else some (slice bytes (offset + 1) (offset + 1 + size))

pub record NetworkEncryptionKeyAccount : Type 0 where
  pub noa_public_key : Bytes
  pub state : ℕ
  pub created_epoch : ℕ
  pub last_reconfiguration_epoch : ℕ
  pub dkg_output_digest : Bytes
  pub proof : Option Bytes

pub read_network_encryption_key : Bytes → Option NetworkEncryptionKeyAccount
read_network_encryption_key bytes = when (is_account bytes network_encryption_key_entry) (record {
  noa_public_key = slice bytes 2 34;
  state = byte_at bytes 34;
  created_epoch = read_u64 bytes 35;
  last_reconfiguration_epoch = read_u64 bytes 43;
  dkg_output_digest = slice bytes 51 83;
  proof = read_record_proof bytes 100;
})

pub record NetworkReconfigurationOutputAccount : Type 0 where
  pub noa_public_key : Bytes
  pub epoch : ℕ
  pub digest : Bytes
  pub proof : Option Bytes

pub read_network_reconfiguration_output : Bytes → Option NetworkReconfigurationOutputAccount
read_network_reconfiguration_output bytes =
    when (is_account bytes network_reconfiguration_output_entry) (record {
      noa_public_key = slice bytes 2 34;
      epoch = read_u64 bytes 34;
      digest = slice bytes 42 74;
      proof = read_record_proof bytes 74;
    })

pub record GasDepositAccount : Type 0 where
  pub user_public_key : Bytes
  pub ika_balance : ℕ
  pub sol_balance : ℕ
  pub pending_ika_withdrawal : ℕ
  pub pending_sol_withdrawal : ℕ
  pub withdrawal_sequence : ℕ
  pub ika_debt : ℕ
  pub sol_debt : ℕ
  pub sequence : ℕ
  pub owner : Bytes

pub read_gas_deposit : Bytes → Option GasDepositAccount
read_gas_deposit bytes = when (is_account bytes gas_deposit_entry) (record {
  user_public_key = slice bytes 2 34;
  ika_balance = read_u64 bytes 34;
  sol_balance = read_u64 bytes 42;
  pending_ika_withdrawal = read_u64 bytes 82;
  pending_sol_withdrawal = read_u64 bytes 90;
  withdrawal_sequence = read_u64 bytes 98;
  ika_debt = read_u64 bytes 123;
  sol_debt = read_u64 bytes 131;
  sequence = read_u64 bytes 139;
  owner = slice bytes 147 179;
})
