-- ===== src/Accounts/Vouchers.antt =====
-- accounts.ts: the vouchers, and their signatures as a verified read returns them. keccak256 is an
-- argument, and so is the verifier, which returns or throws a text.
use Prim.Native.String.{String}
use ika_pre_alpha.Prelude.{
  ℕ, ◌+◌, Bool, not, Option, none, some, ◌==◌, if◌then◌else◌, length, Result, ok, guard, map_err,
  ◌>>=◌, ◌>>◌,
}
use ika_pre_alpha.Prelude.Bytes.{Bytes, same_bytes}
use ika_pre_alpha.Answers.Checks.{zeros}
use ika_pre_alpha.Accounts.{
  AccountEntry, slice, byte_at, read_u16, read_u64, at_most, is_account, when,
}

abbrev pub signature_voucher_entry : AccountEntry
signature_voucher_entry = record { discriminator = 108; data_len = 304 }

abbrev pub future_signature_voucher_entry : AccountEntry
future_signature_voucher_entry = record { discriminator = 109; data_len = 1941 }

-- What the two kinds of voucher store at the same places.
pub record VoucherAuthorization : Type 0 where
  pub dwallet : Bytes
  pub message_digest : Bytes
  pub message_metadata_digest : Bytes
  pub owner : Bytes
  pub signature_scheme : ℕ
  pub signing_key : Option Bytes
  pub issued_epoch : ℕ
  pub status : ℕ

pub record SignatureVoucherAccount : Type 0 where
  pub authorization : VoucherAuthorization
  pub signature : Bytes

pub record FutureSignatureVoucherAccount : Type 0 where
  pub authorization : VoucherAuthorization
  pub attestation_proof : Bytes
  pub has_partial_signature : Bool
  pub attestation : Bytes
  pub signature : Bytes

pub read_authorization : Bytes → VoucherAuthorization
read_authorization bytes = record {
  dwallet = slice bytes 2 34;
  message_digest = slice bytes 34 66;
  message_metadata_digest = slice bytes 66 98;
  owner = slice bytes 98 130;
  signature_scheme = read_u16 bytes 130;
  signing_key = when (not (byte_at bytes 132 == 0)) (slice bytes 133 165);
  issued_epoch = read_u64 bytes 165;
  status = byte_at bytes 173;
}

pub read_signature_voucher_unverified : Bytes → Option SignatureVoucherAccount
read_signature_voucher_unverified bytes = when (is_account bytes signature_voucher_entry) (record {
  authorization = read_authorization bytes;
  signature = slice bytes 176 (176 + at_most (read_u16 bytes 174) 128);
})

pub read_future_signature_voucher_unverified : Bytes → Option FutureSignatureVoucherAccount
read_future_signature_voucher_unverified bytes =
    when (is_account bytes future_signature_voucher_entry) (record {
      authorization = read_authorization bytes;
      attestation_proof = slice bytes 174 272;
      has_partial_signature = not (byte_at bytes 272 == 0);
      attestation = slice bytes 275 (275 + at_most (read_u16 bytes 273) 1536);
      signature = slice bytes 1813 (1813 + at_most (read_u16 bytes 1811) 128);
    })

pub record ExpectedVoucherSignature : Type 0 where
  pub dwallet_address : Bytes
  pub message : Bytes
  pub message_metadata : Bytes
  pub signature_scheme : ℕ

pub data VoucherError : Type 0 where
  another_dwallet another_message other_metadata another_scheme : VoucherError
  verifier_threw : String → VoucherError

module _ (keccak_256 : Bytes → Bytes) where
  pub approval_message_digests : (message metadata : Bytes) → Bytes × Bytes
  approval_message_digests message metadata =
      (keccak_256 message, if length metadata == 0 then zeros 32 else keccak_256 metadata)

  module _ (verify_signature : Bytes → Result String (Unit {0})) where
    -- A voucher without a signature is returned as it is.
    pub voucher_signature_verified :
        VoucherAuthorization → Bytes → ExpectedVoucherSignature → Result VoucherError Bytes
    voucher_signature_verified voucher signature expected = do
      let (message_digest, message_metadata_digest) =
          approval_message_digests expected.message expected.message_metadata
      guard (same_bytes voucher.dwallet expected.dwallet_address) another_dwallet
      guard (same_bytes voucher.message_digest message_digest) another_message
      guard (same_bytes voucher.message_metadata_digest message_metadata_digest) other_metadata
      guard (voucher.signature_scheme == expected.signature_scheme) another_scheme
      let verified = map_err verifier_threw (verify_signature signature) >> ok signature
      if length signature == 0 then ok signature else verified

    pub read_signature_voucher_verified :
        Bytes → ExpectedVoucherSignature → Result VoucherError (Option SignatureVoucherAccount)
    read_signature_voucher_verified bytes expected =
        elim (read_signature_voucher_unverified bytes) [
          | none ↦ ok none
          | some voucher ↦ do
            signature ← voucher_signature_verified voucher.authorization voucher.signature expected
            ok (some (record { authorization = voucher.authorization; signature = signature }))
        ]

    pub read_future_signature_voucher_verified :
        Bytes
        → ExpectedVoucherSignature
        → Result VoucherError (Option FutureSignatureVoucherAccount)
    read_future_signature_voucher_verified bytes expected =
        elim (read_future_signature_voucher_unverified bytes) [
          | none ↦ ok none
          | some voucher ↦ do
            signature ← voucher_signature_verified voucher.authorization voucher.signature expected
            ok (
                some (record {
                  authorization = voucher.authorization;
                  attestation_proof = voucher.attestation_proof;
                  has_partial_signature = voucher.has_partial_signature;
                  attestation = voucher.attestation;
                  signature = signature;
                }))
        ]
