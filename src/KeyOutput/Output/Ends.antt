-- ===== src/KeyOutput/Output/Ends.antt =====
-- A check of a served output ends, and what it accepts is recorded and signed.
use ika_pre_alpha.Prelude.{
  ℕ, ◌+◌, ◌≡◌, refl, ap, ◌∙◌, inl, inr, true, Option, none, some, Result, ok, err, map_err,
  Bool-cases, Result-cases, arith,
}
use mathlib.Core.Path.{subst}
use ika_pre_alpha.Prelude.Bytes.{Bytes, same_bytes, same_bytes_iff}
use ika_pre_alpha.Networks.{NetworkKeyOutputRecord}
use ika_pre_alpha.Attested.Kinds.{AttestationCrypto, AttestationFailure}
use ika_pre_alpha.KeyOutput.{
  OutputFailure, output_failed, key_check, ReshareRecordWait,
  network_key_reconfiguration_record_message, network_key_dkg_record_message, within_time_left,
  RecordKind, dkg_record_kind, reshare_record_kind, OutputRun,
}
use ika_pre_alpha.KeyOutput.Proof.{verify_network_key_record_proof}
use ika_pre_alpha.KeyOutput.Proof.Genuine.{IsProof, IsProof-of_verify}
use ika_pre_alpha.KeyOutput.Output.{
  NetworkKeyOutput, as_output_failure, network_output_digest, verify_record_proof,
  verify_against_record, verify_one_output, verify_reshare, verify_network_key_output,
}
use ika_pre_alpha.KeyOutput.Output.Waits.{IsTimed, WasRead, read-of_within, record_once_signed_ends}

module _ (crypto : AttestationCrypto) (blake2b : Bytes → Bytes) where
  -- A record that was read from the chain holds the output's digest, and a proof of its message whose
  -- signer the chain says is registered.
  pub record IsRecorded (run : OutputRun) (kind : RecordKind) (output : Bytes)
      (message : Bytes → Result OutputFailure Bytes) : Type 0 where
    pub stored : NetworkKeyOutputRecord
    pub was_read : WasRead run kind stored
    pub digest : blake2b output ≡ stored.digest
    pub signed : Bytes
    pub is_message : message stored.digest ≡ ok signed
    pub signer : Bytes
    pub proof : IsProof crypto signed stored.proof signer
    pub registered : (run.registered_read kind signer).answer ≡ ok true

  as_output_failure_iff :
      {A : Type 0} (r : Result AttestationFailure A) (a : A)
      → map_err as_output_failure r ≡ ok a
      → r ≡ ok a
  as_output_failure_iff (ok b) a h = ground arith
  as_output_failure_iff (err e) a h = absurd (ground arith)

  IsRecorded-of_verify :
      (run : OutputRun) (kind : RecordKind) (output : Bytes) (stored : NetworkKeyOutputRecord)
      (message : Bytes → Result OutputFailure Bytes) (deadline : ℕ)
      → WasRead run kind stored
      → verify_against_record crypto blake2b run kind output stored message deadline ≡ ok tt
      → IsRecorded run kind output message
  unfolding verify_against_record verify_record_proof network_output_digest
  IsRecorded-of_verify run kind output stored message deadline was_read h =
      elim (Result-cases (message stored.digest)) [
        | inr (error, e) ↦ absurd (ground arith)
        | inl (signed, e) ↦
            elim (Result-cases (
              map_err as_output_failure
                (verify_network_key_record_proof crypto signed stored.proof))) [
                  | inr (error, f) ↦ absurd (ground arith)
                  | inl (signer, f) ↦
                      elim (Result-cases (
                        within_time_left (run.registered_read kind signer)
                          (run.registered_asked_at kind) deadline)) [
                            | inr (error, g) ↦ absurd (ground arith)
                            | inl (registered, g) ↦
                                let is_registered : registered ≡ true = ground arith in
                                record {
                                  stored = stored;
                                  was_read = was_read;
                                  digest =
                                      (same_bytes_iff (blake2b output) stored.digest).0
                                        (ground arith);
                                  signed = signed;
                                  is_message = e;
                                  signer = signer;
                                  proof = IsProof-of_verify crypto signed stored.proof signer (
                                      as_output_failure_iff
                                        (verify_network_key_record_proof crypto signed stored.proof)
                                        signer f);
                                  registered =
                                      read-of_within (run.registered_read kind signer)
                                        (run.registered_asked_at kind) deadline true
                                        (g ∙ ap ok is_registered);
                                }
                          ]
                ]
      ]

  -- The served output is of the key that was asked for, and what it carries is recorded.
  pub record IsServed (run : OutputRun) (served : NetworkKeyOutput) (key : Bytes) : Type 0 where
    pub of_key : served.network_key_id ≡ key
    pub dkg :
        IsRecorded run dkg_record_kind served.network_dkg_output
          (network_key_dkg_record_message key)
    pub reshare :
        (output : Bytes)
        → served.latest_reconfiguration_output ≡ some output
        → IsRecorded run
            (reshare_record_kind served.epoch)
            output
            (network_key_reconfiguration_record_message key served.epoch)

  module _ (run : OutputRun) (wait : ReshareRecordWait) (timed : IsTimed run wait) where
    one_output_ends :
        (kind : RecordKind) (output : Bytes) (message : Bytes → Result OutputFailure Bytes)
        → (result : Result OutputFailure (Unit {0})) × (verify_one_output crypto blake2b
              (wait.budget_ms + 1)
              run
              kind
              output
              message
              wait
            ≡ some result)
          × (result ≡ ok tt → IsRecorded run kind output message)
    unfolding verify_one_output
    one_output_ends kind output message =
        let (waited, ends, read) =
          record_once_signed_ends run wait timed (wait.budget_ms + 1) 0 kind
            (network_output_digest crypto blake2b output) (omega arith) (omega arith) in
        elim (Result-cases waited) [
          | inr (failure, e) ↦ (err failure, ground arith, λ is. absurd (ground arith))
          | inl (stored, e) ↦ (
            verify_against_record crypto blake2b run kind output stored message
                (run.started + wait.budget_ms),
            ground arith,
            λ is.
                IsRecorded-of_verify run kind output stored message (run.started + wait.budget_ms)
                  (read stored e) is,
          )
        ]

    reshare_ends :
        (served : NetworkKeyOutput) (key : Bytes) (latest : Option Bytes)
        → (result : Result OutputFailure (Unit {0})) × (verify_reshare crypto blake2b
              (wait.budget_ms + 1)
              served
              key
              run
              wait
              latest
            ≡ some result)
          × (result ≡ ok tt
              → (output : Bytes) → latest ≡ some output
              → IsRecorded run
                  (reshare_record_kind served.epoch)
                  output
                  (network_key_reconfiguration_record_message key served.epoch))
    unfolding verify_reshare
    reshare_ends served key none = (ok tt, refl, λ is output e. absurd (ground arith))
    reshare_ends served key (some latest) =
        let message = network_key_reconfiguration_record_message key served.epoch in
        let kind = reshare_record_kind served.epoch in
        let (result, ends, recorded) = one_output_ends kind latest message in
        (
          result,
          ends,
          λ is output e.
              let same : latest ≡ output = ground arith in
              subst (λ x. IsRecorded run kind x message) same (recorded is),
        )

    -- With a pause of a millisecond at least and a clock that moves on between the rounds, the check of
    -- a served output ends within the waits' budget of rounds. If it accepts, it returns what was
    -- served, the output is of the asked key, and its DKG output and its reshare output, if it carries
    -- one, are recorded: a record read from the chain holds the output's Blake2b digest and a proof of
    -- the record's message whose signer the chain answers is registered.
    pub verify_network_key_output_ends :
        (served : NetworkKeyOutput) (key : Bytes)
        → (result : Result OutputFailure NetworkKeyOutput) × (verify_network_key_output crypto
              blake2b
              (wait.budget_ms + 1)
              served
              key
              run
              wait
            ≡ some result)
          × ((accepted : NetworkKeyOutput)
              → result ≡ ok accepted
              → (accepted ≡ served) × IsServed run served key)
    unfolding verify_network_key_output
    verify_network_key_output_ends served key =
        elim (Bool-cases (same_bytes served.network_key_id key)) [
          | inr other ↦
              (err (output_failed key_check), ground arith, λ accepted is. absurd (ground arith))
          | inl same ↦
              let (first, first_ends, dkg) =
                one_output_ends dkg_record_kind served.network_dkg_output
                  (network_key_dkg_record_message key) in
              elim (Result-cases first) [
                | inr (failure, e) ↦
                    (err failure, ground arith, λ accepted is. absurd (ground arith))
                | inl (u, e) ↦
                    let (second, second_ends, reshare) =
                      reshare_ends served key served.latest_reconfiguration_output in
                    elim (Result-cases second) [
                      | inr (failure, f) ↦
                          (err failure, ground arith, λ accepted is. absurd (ground arith))
                      | inl (w, f) ↦ (
                        ok served,
                        ground arith,
                        λ accepted is. (
                          ground arith,
                          record {
                            of_key = (same_bytes_iff served.network_key_id key).0 same;
                            dkg = dkg e;
                            reshare = reshare f;
                          },
                        ),
                      )
                    ]
              ]
        ]
