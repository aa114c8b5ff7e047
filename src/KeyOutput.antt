-- ===== src/KeyOutput.antt =====
-- sdk/core/src/grpc/network-key-output.ts: a network key's output held against a chain's records. A
-- read of the chain is its answer and the time it settles at, if it ever does; what the reads of one
-- call answer and the clock shows is an `OutputRun`, by the record and the number of the round.
-- Blake2b is an argument, and the rest of the cryptography is `AttestationCrypto`.
pub mod Proof
pub mod Output
mod Tests
use ika_pre_alpha.Prelude.{
  ℕ, zero, suc, ◌+◌, ◌^◌, Bool, true, false, not, ◌&&◌, ◌||◌, Option, none, some, List, [], ◌∷◌,
  ◌++◌, ◌==◌, ltb, leb, if◌then◌else◌, length, all, Result, ok, err, guard, map_err, ◌>>=◌, ◌>>◌,
}
use ika_pre_alpha.Prelude.Bytes.{Bytes, same_bytes, among, to_le}
use ika_pre_alpha.Prelude.Int.{ℤ, pos, pos_part, leb_ℤ, ltb_ℤ}
use ika_pre_alpha.Committee.{attestation_signing_prefix}
use ika_pre_alpha.Networks.{TrustedNetworkKeys, NetworkError, NetworkKeyOutputRecord}
use ika_pre_alpha.Attested.Kinds.{
  Versioned, v1, another_variant, AttestationProof, AttestationCrypto, AttestationFailure, failed,
  bcs_threw, version_check, signer_check, signature_check, decode_check,
}

abbrev pub network_key_reconfiguration_record_tag : ℕ
network_key_reconfiguration_record_tag = 5

abbrev pub network_key_dkg_record_tag : ℕ
network_key_dkg_record_tag = 6

pub data NetworkKeyOutputCheck : Type 0 where
  key_check record_missing digest_check output_decode output_version output_signer
        output_signature :
      NetworkKeyOutputCheck

pub data OutputFailure : Type 0 where
  output_failed : NetworkKeyOutputCheck → OutputFailure
  attestation_failed : AttestationFailure → OutputFailure
  not_length : (size expected : ℕ) → OutputFailure
  epoch_not_u64 : ℤ → OutputFailure
  chain_read_failed : NetworkError → OutputFailure
  not_answered_in_time : OutputFailure

pub record ReshareRecordWait : Type 0 where
  pub pause_ms : ℕ
  pub budget_ms : ℕ

abbrev pub reshare_record_wait : ReshareRecordWait
reshare_record_wait = record { pause_ms = 2_000; budget_ms = 120_000 }

pub require_length : Bytes → ℕ → Result OutputFailure (Unit {0})
require_length bytes expected =
    guard (length bytes == expected) (not_length (length bytes) expected)

pub u64_little_endian : ℤ → Result OutputFailure Bytes
u64_little_endian epoch =
    guard (leb_ℤ (pos 0) epoch && ltb_ℤ epoch (pos (2 ^ 64))) (epoch_not_u64 epoch)
    >> ok (to_le 8 (pos_part epoch))

pub network_key_reconfiguration_record_message :
    (key : Bytes) (epoch : ℤ) (digest : Bytes) → Result OutputFailure Bytes
network_key_reconfiguration_record_message key epoch digest = do
  require_length key 32
  require_length digest 32
  epoch_bytes ← u64_little_endian epoch
  ok (
      attestation_signing_prefix
      ++ (network_key_reconfiguration_record_tag ∷ (key ++ (epoch_bytes ++ digest))))

pub network_key_dkg_record_message : (key digest : Bytes) → Result OutputFailure Bytes
network_key_dkg_record_message key digest = do
  require_length key 32
  require_length digest 32
  ok (attestation_signing_prefix ++ (network_key_dkg_record_tag ∷ (key ++ digest)))

-- A read of the chain, which settles at a time or never.
pub record TimedRead (A : Type 0) : Type 0 where
  pub answer : Result NetworkError A
  pub settles_at : Option ℕ

-- The timer fires at the deadline, or at once where it is past.
pub within_time_left : {A : Type 0} → TimedRead A → (now deadline : ℕ) → Result OutputFailure A
within_time_left read now deadline = elim read.settles_at [
  | none ↦ err not_answered_in_time
  | some settled ↦
      if leb settled now || leb settled deadline
      then map_err chain_read_failed read.answer
      else err not_answered_in_time
]

pub data RecordKind : Type 0 where
  dkg_record_kind : RecordKind
  reshare_record_kind : ℤ → RecordKind

-- The reads of a record and the clock before a read and after it, by the round; and the read of a
-- signer's registration with the clock before it.
pub record OutputRun : Type 0 where
  pub started : ℕ
  pub record_read : RecordKind → ℕ → TimedRead (Option NetworkKeyOutputRecord)
  pub asked_at : RecordKind → ℕ → ℕ
  pub checked_at : RecordKind → ℕ → ℕ
  pub registered_read : RecordKind → Bytes → TimedRead Bool
  pub registered_asked_at : RecordKind → ℕ

-- What the loop does with a record that was read: hand it on, fail, or read again.
pub data ReadStep : Type 0 where
  handed_on : NetworkKeyOutputRecord → ReadStep
  not_registered again : ReadStep

pub read_step : RecordKind → (served_digest : Bytes) → Option NetworkKeyOutputRecord → ReadStep
read_step dkg_record_kind served none = not_registered
read_step (reshare_record_kind epoch) served none = again
read_step kind served (some stored) =
    if not (same_bytes stored.digest served) || not (length stored.proof == 0)
    then handed_on stored
    else again

pub record_once_signed :
    (fuel k : ℕ)
    → OutputRun
    → RecordKind
    → Bytes
    → (deadline : ℕ) → ReshareRecordWait
    → Option (Result OutputFailure NetworkKeyOutputRecord)
record_once_signed zero k run kind served deadline wait = none
record_once_signed (suc fuel) k run kind served deadline wait =
    let rest = record_once_signed fuel (suc k) run kind served deadline wait in
    elim (within_time_left (run.record_read kind k) (run.asked_at kind k) deadline) [
      | err failure ↦ some (err failure)
      | ok found ↦ elim (read_step kind served found) [
        | handed_on stored ↦ some (ok stored)
        | not_registered ↦ some (err (output_failed record_missing))
        | again ↦
            if ltb deadline (run.checked_at kind k + wait.pause_ms)
            then some (err (output_failed record_missing))
            else rest
      ]
    ]
