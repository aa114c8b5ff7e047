-- ===== src/KeyOutput/Output.antt =====
-- network-key-output.ts: the check of a served output against the records of one chain. `none` means
-- that the fuel of a wait ran out.
pub mod Waits
pub mod Ends
use ika_pre_alpha.Prelude.{
  ℕ, ◌+◌, Bool, true, false, not, Option, none, some, ◌==◌, length, Result, ok, err, guard, map_err,
  ◌>>=◌, ◌>>◌,
}
use mathlib.Core.Option
use ika_pre_alpha.Prelude.Bytes.{Bytes, same_bytes}
use ika_pre_alpha.Prelude.Int.{ℤ}
use ika_pre_alpha.Networks.{NetworkKeyOutputRecord}
use ika_pre_alpha.Attested.Kinds.{
  AttestationCrypto, AttestationFailure, failed, version_check, signature_check, decode_check,
}
use ika_pre_alpha.KeyOutput.{
  NetworkKeyOutputCheck, key_check, record_missing, digest_check, output_decode, output_version,
  output_signer, output_signature, OutputFailure, output_failed, attestation_failed,
  ReshareRecordWait, network_key_reconfiguration_record_message, network_key_dkg_record_message,
  within_time_left, RecordKind, dkg_record_kind, reshare_record_kind, OutputRun, record_once_signed,
}
use ika_pre_alpha.KeyOutput.Proof.{verify_network_key_record_proof}

pub record NetworkKeyOutput : Type 0 where
  pub network_key_id : Bytes
  pub epoch : ℤ
  pub network_dkg_output : Bytes
  pub latest_reconfiguration_output : Option Bytes

-- The checks `decode`, `version` and `signature` become checks of the output.
pub as_output_failure : AttestationFailure → OutputFailure
as_output_failure (failed decode_check field) = output_failed output_decode
as_output_failure (failed version_check field) = output_failed output_version
as_output_failure (failed signature_check field) = output_failed output_signature
as_output_failure other = attestation_failed other

-- A wait that answers, and then what follows it.
infixl 5 ◌once◌
abbrev pub ◌once◌ {ℓ} :
    {A B : Type ℓ}
    → Option (Result OutputFailure A)
    → (A → Option (Result OutputFailure B))
    → Option (Result OutputFailure B)
none once next = none
some (err failure) once next = some (err failure)
some (ok answer) once next = next answer

module _ (crypto : AttestationCrypto) (blake2b : Bytes → Bytes) where
  unfoldable pub network_output_digest : Bytes → Bytes
  network_output_digest output = blake2b output

  unfoldable pub verify_record_proof :
      OutputRun
      → RecordKind
      → NetworkKeyOutputRecord
      → (Bytes → Result OutputFailure Bytes)
      → (deadline : ℕ) → Result OutputFailure (Unit {0})
  verify_record_proof run kind stored message deadline = do
    guard (not (length stored.proof == 0)) (output_failed record_missing)
    signed ← message stored.digest
    signer ← map_err as_output_failure (verify_network_key_record_proof crypto signed stored.proof)
    registered ←
        within_time_left (run.registered_read kind signer) (run.registered_asked_at kind) deadline
    guard registered (output_failed output_signer)

  unfoldable pub verify_against_record :
      OutputRun
      → RecordKind
      → (output : Bytes) → NetworkKeyOutputRecord
      → (Bytes → Result OutputFailure Bytes)
      → (deadline : ℕ) → Result OutputFailure (Unit {0})
  verify_against_record run kind output stored message deadline = do
    guard (same_bytes (network_output_digest output) stored.digest) (output_failed digest_check)
    verify_record_proof run kind stored message deadline

  -- One output: its record once it is signed, then the check against it.
  unfoldable pub verify_one_output :
      (fuel : ℕ)
      → OutputRun
      → RecordKind
      → (output : Bytes) → (Bytes → Result OutputFailure Bytes)
      → ReshareRecordWait
      → Option (Result OutputFailure (Unit {0}))
  verify_one_output fuel run kind output message wait =
      let deadline = run.started + wait.budget_ms in
      record_once_signed fuel 0 run kind (network_output_digest output) deadline wait once λ stored.
      some (verify_against_record run kind output stored message deadline)

  unfoldable pub verify_reshare :
      (fuel : ℕ)
      → NetworkKeyOutput
      → (key : Bytes) → OutputRun
      → ReshareRecordWait
      → Option Bytes
      → Option (Result OutputFailure (Unit {0}))
  verify_reshare fuel served key run wait none = some (ok tt)
  verify_reshare fuel served key run wait (some output) =
      verify_one_output fuel run (reshare_record_kind served.epoch) output
        (network_key_reconfiguration_record_message key served.epoch) wait

  unfoldable pub verify_network_key_output :
      (fuel : ℕ)
      → NetworkKeyOutput
      → (key : Bytes) → OutputRun
      → ReshareRecordWait
      → Option (Result OutputFailure NetworkKeyOutput)
  verify_network_key_output fuel served key run wait =
      some (guard (same_bytes served.network_key_id key) (output_failed key_check))
      once (λ named.
          verify_one_output fuel run dkg_record_kind served.network_dkg_output
            (network_key_dkg_record_message key) wait)
      once (λ dkg. verify_reshare fuel served key run wait served.latest_reconfiguration_output)
      once (λ reshared. some (ok served))

  pub verify_signed_dkg_record :
      (fuel : ℕ)
      → OutputRun
      → (key dkg_output_digest : Bytes) → ReshareRecordWait
      → Option (Result OutputFailure (Unit {0}))
  verify_signed_dkg_record fuel run key dkg_output_digest wait =
      let deadline = run.started + wait.budget_ms in
      record_once_signed fuel 0 run dkg_record_kind dkg_output_digest deadline wait once λ stored.
      some (
        guard (same_bytes stored.digest dkg_output_digest) (output_failed digest_check)
        >> verify_record_proof run dkg_record_kind stored (network_key_dkg_record_message key)
            deadline)
