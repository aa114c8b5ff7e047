-- ===== src/Records/Lookup/Shown.antt =====
-- What the chain shows of a request of each kind for every answer of the lookup.
use ika_pre_alpha.Prelude.{
  ◌≡◌, ◌≢◌, ◌∙◌, ◌⊎◌, inl, inr, refl, ap, true, false, Option, none, some, [], ◌∷◌, Result, ok,
  ◌>>=◌, arith, Bool-cases, Option-cases, Result-cases,
}
use ika_pre_alpha.Prelude.Bytes.{Bytes, same_bytes, same_bytes_iff}
use ika_pre_alpha.Records.{
  completed_presign, given_up_signature, given_up_share_commit, RecordsCrypto,
  signature_commit_item_id, DWalletLookup, PendingRequestKind, presign, sign, future_sign_step_one,
  future_sign_completion, make_share_public, re_encrypt_share, dkg, imported_key, PendingRequest,
  FutureVoucher, RequestRecordReader, CheckedDWalletRecord, DWalletShareReader, ChainRecord,
  RequestOutcome, not_run, unknown, ran, signature_found, own_step_one, another_step_one,
  signature_in_voucher, public_share, new_holder_share, the_dwallet,
}
use ika_pre_alpha.Records.Lookup.{
  held_signature, given_up_signature_or, step_one_outcome, dwallet_record, share_read, holds_share,
  share_outcome, dwallet_outcome, find_session,
}
use ika_pre_alpha.Records.Lookup.Uncharged.{IsRanOr, IsRanOr-of_ran_or}
use ika_pre_alpha.Records.Lookup.NotRun.{HasNoShare}

module _ {Failure Share : Type 0} (crypto : RecordsCrypto) (pending : PendingRequest)
    (records : RequestRecordReader Failure)
    (shares : Option (DWalletShareReader Failure Share)) where
  -- The dWallet's record was read, and a share of the kind that `read` reads.
  abbrev pub HasShare :
      DWalletLookup → (CheckedDWalletRecord Failure Share → Result Failure (Option Share)) → Type 0
  HasShare dwallet read =
      (reader : DWalletShareReader Failure Share) × (found : CheckedDWalletRecord Failure Share)
      × (share : Share) × (shares ≡ some reader)
      × (reader.read_dwallet dwallet ≡ ok (some found))
      × (read found ≡ ok (some share))

  -- With no signature found, the charges are asked, the session's given-up signature commit with them.
  abbrev pub IsGivenUpOr : RequestOutcome → Type 0
  IsGivenUpOr outcome =
      (id : Bytes) × (signature_commit_item_id crypto pending.session_identifier ≡ some id)
      × IsRanOr crypto pending records not_run ((given_up_signature, id) ∷ []) outcome

  abbrev pub IsStepOne : FutureVoucher → RequestOutcome → Type 0
  IsStepOne held outcome =
      ((session : Bytes) × (held.step_one_session ≡ some session)
        × (((session ≡ pending.session_identifier) × (outcome ≡ ran own_step_one))
            ⊎ ((session ≢ pending.session_identifier) × (outcome ≡ ran another_step_one))))
      ⊎ ((held.step_one_session ≡ none)
          × (((signature : Bytes) × (held.signature ≡ some signature)
                × (outcome ≡ ran signature_in_voucher))
              ⊎ ((held.signature ≡ none)
                  × (((held.closed ≡ true) × IsRanOr crypto pending records unknown [] outcome)
                      ⊎ ((held.closed ≡ false)
                          × IsRanOr crypto pending records not_run [] outcome)))))

  abbrev pub IsShareOutcome :
      DWalletLookup
      → (CheckedDWalletRecord Failure Share → Result Failure (Option Share))
      → ChainRecord
      → Bytes
      → RequestOutcome
      → Type 0
  IsShareOutcome dwallet read held item_id outcome =
      (HasShare dwallet read × (outcome ≡ ran held))
      ⊎ (HasNoShare crypto pending records shares dwallet read
          × IsRanOr crypto pending records not_run ((given_up_share_commit, item_id) ∷ []) outcome)

  abbrev pub IsDWalletOutcome : DWalletLookup → RequestOutcome → Type 0
  IsDWalletOutcome dwallet outcome =
      (reader : DWalletShareReader Failure Share) × (shares ≡ some reader)
      × (((found : CheckedDWalletRecord Failure Share) × (reader.read_dwallet dwallet
              ≡ ok (some found))
            × (outcome ≡ ran the_dwallet))
          ⊎ ((reader.read_dwallet dwallet ≡ ok none)
              × IsRanOr crypto pending records unknown [] outcome))

  -- What each kind of request looks for: its own trace first, and the charges where it left none.
  abbrev pub IsShownBy : PendingRequestKind → RequestOutcome → Type 0
  IsShownBy presign outcome =
      IsRanOr crypto pending records not_run ((completed_presign, pending.session_identifier) ∷ [])
        outcome
  IsShownBy (sign voucher) outcome =
      ((signature : Bytes) × (records.voucher_signature voucher ≡ ok (some signature))
        × (outcome ≡ signature_found signature))
      ⊎ ((records.voucher_signature voucher ≡ ok none) × IsGivenUpOr outcome)
  IsShownBy (future_sign_step_one voucher) outcome =
      ((records.future_voucher voucher ≡ ok none) × (outcome ≡ unknown))
      ⊎ ((held : FutureVoucher) × (records.future_voucher voucher ≡ ok (some held))
          × IsStepOne held outcome)
  IsShownBy (future_sign_completion voucher) outcome =
      (held : Option FutureVoucher) × (records.future_voucher voucher ≡ ok held)
      × (((signature : Bytes) × (held_signature held ≡ some signature)
            × (outcome ≡ signature_found signature))
          ⊎ ((held_signature held ≡ none) × IsGivenUpOr outcome))
  IsShownBy (make_share_public dwallet item_id) outcome =
      IsShareOutcome dwallet (λ r. r.read_public_share) public_share item_id outcome
  IsShownBy (re_encrypt_share dwallet new_holder item_id) outcome =
      IsShareOutcome dwallet (λ r. r.read_encrypted_share new_holder) new_holder_share item_id
        outcome
  IsShownBy (dkg dwallet) outcome = IsDWalletOutcome dwallet outcome
  IsShownBy (imported_key dwallet) outcome = IsDWalletOutcome dwallet outcome

  IsGivenUpOr-of_given_up :
      (outcome : RequestOutcome)
      → given_up_signature_or crypto pending records ≡ ok outcome
      → IsGivenUpOr outcome
  unfolding given_up_signature_or
  IsGivenUpOr-of_given_up outcome h =
      elim (Option-cases (signature_commit_item_id crypto pending.session_identifier)) [
        | inl missing ↦ absurd (ground arith)
        | inr (id, given) ↦ (
          id,
          given,
          IsRanOr-of_ran_or crypto pending records not_run outcome ((given_up_signature, id) ∷ [])
              (ground arith),
        )
      ]

  IsStepOne-of_step_one_outcome :
      (held : FutureVoucher) (outcome : RequestOutcome)
      → step_one_outcome crypto pending records held ≡ ok outcome
      → IsStepOne held outcome
  unfolding step_one_outcome
  IsStepOne-of_step_one_outcome held outcome h = elim (Option-cases held.step_one_session) [
    | inr (session, stored) ↦ elim (Bool-cases (same_bytes session pending.session_identifier)) [
      | inl own ↦ inl (
        session,
        stored,
        inl ((same_bytes_iff session pending.session_identifier).0 own, ground arith),
      )
      | inr another ↦ inl (
        session,
        stored,
        inr (
          λ e. let own = (same_bytes_iff session pending.session_identifier).1 e in ground arith,
          ground arith,
        ),
      )
    ]
    | inl waiting ↦ elim (Option-cases held.signature) [
      | inr (signature, written) ↦ inr (waiting, inl (signature, written, ground arith))
      | inl unwritten ↦ elim (Bool-cases held.closed) [
        | inl is_closed ↦ inr (
          waiting,
          inr (
            unwritten,
            inl (
              is_closed,
              IsRanOr-of_ran_or crypto pending records unknown outcome [] (ground arith),
            ),
          ),
        )
        | inr is_open ↦ inr (
          waiting,
          inr (
            unwritten,
            inr (
              is_open,
              IsRanOr-of_ran_or crypto pending records not_run outcome [] (ground arith),
            ),
          ),
        )
      ]
    ]
  ]

  IsShareOutcome-of_share :
      (dwallet : DWalletLookup) (held : ChainRecord) (item_id : Bytes)
      (read : CheckedDWalletRecord Failure Share → Result Failure (Option Share))
      (outcome : RequestOutcome)
      → (holds_share shares dwallet read >>= λ is_held.
          share_outcome crypto pending records is_held held item_id)
        ≡ ok outcome
      → IsShareOutcome dwallet read held item_id outcome
  unfolding share_outcome holds_share dwallet_record share_read
  IsShareOutcome-of_share dwallet held item_id read outcome h = elim (Option-cases shares) [
    | inl nothing ↦ absurd (ground arith)
    | inr (reader, given) ↦ elim (Result-cases (reader.read_dwallet dwallet)) [
      | inr (e, failed) ↦ absurd (ground arith)
      | inl (answer, answered) ↦ elim (Option-cases answer) [
        | inl nothing ↦ inr (
          (reader, given, inl (answered ∙ ap ok nothing)),
          IsRanOr-of_ran_or crypto pending records not_run outcome
              ((given_up_share_commit, item_id) ∷ []) (ground arith),
        )
        | inr (found, something) ↦ elim (Result-cases (read found)) [
          | inr (e, failed) ↦ absurd (ground arith)
          | inl (share, reads) ↦ elim (Option-cases share) [
            | inl unshared ↦ inr (
              (reader, given, inr (found, answered ∙ ap ok something, reads ∙ ap ok unshared)),
              IsRanOr-of_ran_or crypto pending records not_run outcome
                  ((given_up_share_commit, item_id) ∷ []) (ground arith),
            )
            | inr (s, shared) ↦ inl (
              (reader, found, s, given, answered ∙ ap ok something, reads ∙ ap ok shared),
              ground arith,
            )
          ]
        ]
      ]
    ]
  ]

  IsDWalletOutcome-of_dwallet :
      (dwallet : DWalletLookup) (outcome : RequestOutcome)
      → dwallet_outcome crypto pending records shares dwallet ≡ ok outcome
      → IsDWalletOutcome dwallet outcome
  unfolding dwallet_outcome dwallet_record
  IsDWalletOutcome-of_dwallet dwallet outcome h = elim (Option-cases shares) [
    | inl nothing ↦ absurd (ground arith)
    | inr (reader, given) ↦ elim (Result-cases (reader.read_dwallet dwallet)) [
      | inr (e, failed) ↦ absurd (ground arith)
      | inl (answer, answered) ↦ elim (Option-cases answer) [
        | inl nothing ↦ (
          reader,
          given,
          inr (
            answered ∙ ap ok nothing,
            IsRanOr-of_ran_or crypto pending records unknown outcome [] (ground arith),
          ),
        )
        | inr (found, something) ↦
            (reader, given, inl (found, answered ∙ ap ok something, ground arith))
      ]
    ]
  ]

  IsShownBy-of_kind :
      (kind : PendingRequestKind) (outcome : RequestOutcome)
      → pending.kind ≡ kind
      → find_session crypto pending records shares ≡ ok outcome
      → IsShownBy kind outcome
  unfolding find_session
  IsShownBy-of_kind presign outcome k h =
      IsRanOr-of_ran_or crypto pending records not_run outcome
        ((completed_presign, pending.session_identifier) ∷ []) (ground arith)
  IsShownBy-of_kind (sign voucher) outcome k h =
      elim (Result-cases (records.voucher_signature voucher)) [
        | inr (e, failed) ↦ absurd (ground arith)
        | inl (found, answered) ↦ elim (Option-cases found) [
          | inl nothing ↦
              inr (answered ∙ ap ok nothing, IsGivenUpOr-of_given_up outcome (ground arith))
          | inr (s, something) ↦ inl (s, answered ∙ ap ok something, ground arith)
        ]
      ]
  IsShownBy-of_kind (future_sign_step_one voucher) outcome k h =
      elim (Result-cases (records.future_voucher voucher)) [
        | inr (e, failed) ↦ absurd (ground arith)
        | inl (found, answered) ↦ elim (Option-cases found) [
          | inl nothing ↦ inl (answered ∙ ap ok nothing, ground arith)
          | inr (held, something) ↦ inr (
            held,
            answered ∙ ap ok something,
            IsStepOne-of_step_one_outcome held outcome (ground arith),
          )
        ]
      ]
  IsShownBy-of_kind (future_sign_completion voucher) outcome k h =
      elim (Result-cases (records.future_voucher voucher)) [
        | inr (e, failed) ↦ absurd (ground arith)
        | inl (found, answered) ↦ elim (Option-cases (held_signature found)) [
          | inl nothing ↦
              (found, answered, inr (nothing, IsGivenUpOr-of_given_up outcome (ground arith)))
          | inr (s, something) ↦ (found, answered, inl (s, something, ground arith))
        ]
      ]
  IsShownBy-of_kind (make_share_public dwallet item_id) outcome k h =
      IsShareOutcome-of_share dwallet public_share item_id (λ r. r.read_public_share) outcome
        (ground arith)
  IsShownBy-of_kind (re_encrypt_share dwallet new_holder item_id) outcome k h =
      IsShareOutcome-of_share dwallet new_holder_share item_id
        (λ r. r.read_encrypted_share new_holder) outcome (ground arith)
  IsShownBy-of_kind (dkg dwallet) outcome k h =
      IsDWalletOutcome-of_dwallet dwallet outcome (ground arith)
  IsShownBy-of_kind (imported_key dwallet) outcome k h =
      IsDWalletOutcome-of_dwallet dwallet outcome (ground arith)

  pub find_session-IsShownBy :
      (outcome : RequestOutcome)
      → find_session crypto pending records shares ≡ ok outcome
      → IsShownBy pending.kind outcome
  find_session-IsShownBy outcome h = IsShownBy-of_kind pending.kind outcome refl h
