-- ===== src/Records.antt =====
-- sdk/core/src/common/request-records.ts: what a request leaves on the chain. keccak256 and the BCS
-- codec are the third-party packages' and come in as `RecordsCrypto`; the chain reads are
-- `RequestRecordReader` and `DWalletShareReader` (sdk/core/src/grpc/share-ownership.ts), whose share
-- records are of a type `Share` that the lookup never looks into. A read that rejects carries an
-- error of a type `Failure`.
pub mod Lookup
use ika_pre_alpha.Prelude.{
  ℕ, Bool, true, false, Option, none, some, List, [], ◌∷◌, ◌++◌, if◌then◌else◌, Result, ok, err,
}
use mathlib.Core.Option
use ika_pre_alpha.Prelude.Bytes.{Bytes, same_bytes}
use ika_pre_alpha.Prelude.Int.{ℤ, pos, ◌+ℤ◌}

pub data GasChargeSource : Type 0 where
  refused_request rejected_session completed_presign moved_network_key_session given_up_signature
        given_up_share_commit :
      GasChargeSource

-- The source's string, as its bytes.
abbrev pub source_name : GasChargeSource → Bytes
source_name refused_request =
    b'R' ∷ b'e' ∷ b'f' ∷ b'u' ∷ b's' ∷ b'e' ∷ b'd' ∷ b'R' ∷ b'e' ∷ b'q' ∷ b'u' ∷ b'e' ∷ b's' ∷ b't'
    ∷ []
source_name rejected_session =
    b'R' ∷ b'e' ∷ b'j' ∷ b'e' ∷ b'c' ∷ b't' ∷ b'e' ∷ b'd' ∷ b'S' ∷ b'e' ∷ b's' ∷ b's' ∷ b'i' ∷ b'o'
    ∷ b'n' ∷ []
source_name completed_presign =
    b'C' ∷ b'o' ∷ b'm' ∷ b'p' ∷ b'l' ∷ b'e' ∷ b't' ∷ b'e' ∷ b'd' ∷ b'P' ∷ b'r' ∷ b'e' ∷ b's' ∷ b'i'
    ∷ b'g' ∷ b'n' ∷ []
source_name moved_network_key_session =
    b'M' ∷ b'o' ∷ b'v' ∷ b'e' ∷ b'd' ∷ b'N' ∷ b'e' ∷ b't' ∷ b'w' ∷ b'o' ∷ b'r' ∷ b'k' ∷ b'K' ∷ b'e'
    ∷ b'y' ∷ b'S' ∷ b'e' ∷ b's' ∷ b's' ∷ b'i' ∷ b'o' ∷ b'n' ∷ []
source_name given_up_signature =
    b'G' ∷ b'i' ∷ b'v' ∷ b'e' ∷ b'n' ∷ b'U' ∷ b'p' ∷ b'S' ∷ b'i' ∷ b'g' ∷ b'n' ∷ b'a' ∷ b't' ∷ b'u'
    ∷ b'r' ∷ b'e' ∷ []
source_name given_up_share_commit =
    b'G' ∷ b'i' ∷ b'v' ∷ b'e' ∷ b'n' ∷ b'U' ∷ b'p' ∷ b'S' ∷ b'h' ∷ b'a' ∷ b'r' ∷ b'e' ∷ b'C' ∷ b'o'
    ∷ b'm' ∷ b'm' ∷ b'i' ∷ b't' ∷ []

abbrev gas_charge_tag : Bytes
gas_charge_tag =
    b'I' ∷ b'k' ∷ b'a' ∷ b'G' ∷ b'a' ∷ b's' ∷ b'C' ∷ b'h' ∷ b'a' ∷ b'r' ∷ b'g' ∷ b'e' ∷ []

abbrev signature_commit_tag : Bytes
signature_commit_tag =
    b'I' ∷ b'k' ∷ b'a' ∷ b'S' ∷ b'i' ∷ b'g' ∷ b'n' ∷ b'a' ∷ b't' ∷ b'u' ∷ b'r' ∷ b'e' ∷ b'C' ∷ b'o'
    ∷ b'm' ∷ b'm' ∷ b'i' ∷ b't' ∷ []

-- The two shapes of BCS value that the tuples hold: `bcs.string()` and
-- `bcs.fixedArray(32, bcs.u8())`.
pub data BcsValue : Type 0 where
  bcs_string : Bytes → BcsValue
  bcs_fixed_32 : Bytes → BcsValue

-- `keccak_256`; `bcs.tuple(…).serialize(…)`, `none` where it throws.
pub record RecordsCrypto : Type 0 where
  pub keccak_256 : Bytes → Bytes
  pub serialize_tuple : List BcsValue → Option Bytes

module _ (crypto : RecordsCrypto) where
  pub gas_charge_id : GasChargeSource → Bytes → Option Bytes
  gas_charge_id source id = Option.map crypto.keccak_256 (
      crypto.serialize_tuple
        (bcs_string gas_charge_tag ∷ bcs_string (source_name source) ∷ bcs_fixed_32 id ∷ []))

  pub signature_commit_item_id : Bytes → Option Bytes
  signature_commit_item_id session_identifier = Option.map crypto.keccak_256 (
      crypto.serialize_tuple
        (bcs_string signature_commit_tag ∷ bcs_fixed_32 session_identifier ∷ []))

pub record DWalletLookup : Type 0 where
  pub curve : ℕ
  pub public_key : Bytes
  pub imported_session_identifier : Option Bytes

pub data PendingRequestKind : Type 0 where
  presign : PendingRequestKind
  sign : Bytes → PendingRequestKind
  future_sign_step_one : Bytes → PendingRequestKind
  future_sign_completion : Bytes → PendingRequestKind
  make_share_public : DWalletLookup → Bytes → PendingRequestKind
  re_encrypt_share : DWalletLookup → Bytes → Bytes → PendingRequestKind
  dkg : DWalletLookup → PendingRequestKind
  imported_key : DWalletLookup → PendingRequestKind

pub record PendingRequest : Type 0 where
  pub epoch : ℤ
  pub session_identifier : Bytes
  pub transport_key : Bytes
  pub curve : ℕ
  pub network_key_id : Bytes
  pub kind : PendingRequestKind

pub settled_at_epoch : PendingRequest → ℤ
settled_at_epoch pending = elim pending.kind [
  | re_encrypt_share dwallet new_holder share_commit_item_id ↦ pending.epoch +ℤ pos 2
  | _ ↦ pending.epoch +ℤ pos 1
]

pub record FutureVoucher : Type 0 where
  pub step_one_session : Option Bytes
  pub signature : Option Bytes
  pub closed : Bool

pub record RequestRecordReader (Failure : Type 0) : Type 0 where
  pub has_gas_charge : Bytes → Bytes → Result Failure Bool
  pub voucher_signature : Bytes → Result Failure (Option Bytes)
  pub future_voucher : Bytes → Result Failure (Option FutureVoucher)

-- The reads of `CheckedDWalletRecord` and `DWalletShareReader` that the lookup makes.
pub record CheckedDWalletRecord (Failure Share : Type 0) : Type 0 where
  pub read_encrypted_share : Bytes → Result Failure (Option Share)
  pub read_public_share : Result Failure (Option Share)

pub record DWalletShareReader (Failure Share : Type 0) : Type 0 where
  pub read_dwallet : DWalletLookup → Result Failure (Option (CheckedDWalletRecord Failure Share))

-- The `record` strings of the source.
pub data ChainRecord : Type 0 where
  charge_record : GasChargeSource → ChainRecord
  own_step_one another_step_one signature_in_voucher public_share new_holder_share the_dwallet :
      ChainRecord

pub data RequestOutcome : Type 0 where
  not_run unknown : RequestOutcome
  ran : ChainRecord → RequestOutcome
  signature_found : Bytes → RequestOutcome

pub data LookupError (Failure : Type 0) : Type 0 where
  needs_share_reader id_not_serialized : LookupError Failure
  read_failed : Failure → LookupError Failure
