-- ===== src/Records/Lookup/NotRun.antt =====
-- When the lookup says that a request never ran, so that it may be sent again.
use ika_pre_alpha.Prelude.{
  ◌≡◌, ◌↔◌, ◌∙◌, ◌⊎◌, inl, inr, refl, ap, false, Option, none, some, [], ◌∷◌, Result, ok, ◌>>=◌,
  arith, Bool-cases, Option-cases, Result-cases,
}
use ika_pre_alpha.Prelude.Bytes.{Bytes}
use ika_pre_alpha.Records.{
  completed_presign, given_up_signature, given_up_share_commit, RecordsCrypto,
  signature_commit_item_id, DWalletLookup, PendingRequestKind, presign, sign, future_sign_step_one,
  future_sign_completion, make_share_public, re_encrypt_share, dkg, imported_key, PendingRequest,
  FutureVoucher, RequestRecordReader, CheckedDWalletRecord, DWalletShareReader, ChainRecord,
  not_run, public_share, new_holder_share,
}
use ika_pre_alpha.Records.Lookup.{
  held_signature, given_up_signature_or, step_one_outcome, dwallet_record, share_read, holds_share,
  share_outcome, dwallet_outcome, find_session,
}
use ika_pre_alpha.Records.Lookup.Uncharged.{IsUnchargedWith, ran_or_not_run_iff, ran_or_unknown}

module _ {Failure Share : Type 0} (crypto : RecordsCrypto) (pending : PendingRequest)
    (records : RequestRecordReader Failure)
    (shares : Option (DWalletShareReader Failure Share)) where
  -- The dWallet's record was read, and has no share of the kind that `read` reads.
  abbrev pub HasNoShare :
      DWalletLookup → (CheckedDWalletRecord Failure Share → Result Failure (Option Share)) → Type 0
  HasNoShare dwallet read =
      (reader : DWalletShareReader Failure Share) × (shares ≡ some reader)
      × ((reader.read_dwallet dwallet ≡ ok none)
          ⊎ ((found : CheckedDWalletRecord Failure Share) × (reader.read_dwallet dwallet
                ≡ ok (some found))
              × (read found ≡ ok none)))

  -- The given-up signature commit of the session is not charged either.
  abbrev pub HasNoGivenUpSignature : Type 0
  HasNoGivenUpSignature =
      (id : Bytes) × (signature_commit_item_id crypto pending.session_identifier ≡ some id)
      × IsUnchargedWith crypto pending records ((given_up_signature, id) ∷ [])

  -- What the chain holds of a request of each kind when it shows that the request never ran.
  abbrev pub LeftNothing : PendingRequestKind → Type 0
  LeftNothing presign =
      IsUnchargedWith crypto pending records ((completed_presign, pending.session_identifier) ∷ [])
  LeftNothing (sign voucher) = (records.voucher_signature voucher ≡ ok none) × HasNoGivenUpSignature
  LeftNothing (future_sign_step_one voucher) =
      ((held : FutureVoucher) × (records.future_voucher voucher ≡ ok (some held))
        × (held.step_one_session ≡ none)
        × (held.signature ≡ none)
        × (held.closed ≡ false))
      × IsUnchargedWith crypto pending records []
  LeftNothing (future_sign_completion voucher) =
      ((held : Option FutureVoucher) × (records.future_voucher voucher ≡ ok held)
        × (held_signature held ≡ none))
      × HasNoGivenUpSignature
  LeftNothing (make_share_public dwallet item_id) =
      HasNoShare dwallet (λ r. r.read_public_share)
      × IsUnchargedWith crypto pending records ((given_up_share_commit, item_id) ∷ [])
  LeftNothing (re_encrypt_share dwallet new_holder item_id) =
      HasNoShare dwallet (λ r. r.read_encrypted_share new_holder)
      × IsUnchargedWith crypto pending records ((given_up_share_commit, item_id) ∷ [])
  LeftNothing (dkg dwallet) = ⊥
  LeftNothing (imported_key dwallet) = ⊥

  given_up_signature_iff :
      (given_up_signature_or crypto pending records ≡ ok not_run) ↔ HasNoGivenUpSignature
  unfolding given_up_signature_or
  given_up_signature_iff =
      let item = signature_commit_item_id crypto pending.session_identifier in
      (
        λ h. elim (Option-cases item) [
          | inl missing ↦ absurd (ground arith)
          | inr (id, given) ↦ (
            id,
            given,
            (ran_or_not_run_iff crypto pending records ((given_up_signature, id) ∷ [])).0
                (ground arith),
          )
        ],
        λ (id, given, a). rw given ((ran_or_not_run_iff crypto pending records _).1 a),
      )

  share_read_iff :
      (dwallet : DWalletLookup)
      (read : CheckedDWalletRecord Failure Share → Result Failure (Option Share))
      → (holds_share shares dwallet read ≡ ok false) ↔ HasNoShare dwallet read
  unfolding holds_share dwallet_record share_read
  share_read_iff dwallet read = (
    λ h. elim (Option-cases shares) [
      | inl nothing ↦ absurd (ground arith)
      | inr (reader, given) ↦ elim (Result-cases (reader.read_dwallet dwallet)) [
        | inr (e, failed) ↦ absurd (ground arith)
        | inl (answer, answered) ↦ elim (Option-cases answer) [
          | inl nothing ↦ (reader, given, inl (answered ∙ ap ok nothing))
          | inr (found, something) ↦ elim (Result-cases (read found)) [
            | inr (e, failed) ↦ absurd (ground arith)
            | inl (share, reads) ↦ elim (Option-cases share) [
              | inl unshared ↦
                  (reader, given, inr (found, answered ∙ ap ok something, reads ∙ ap ok unshared))
              | inr (s, shared) ↦ absurd (ground arith)
            ]
          ]
        ]
      ]
    ],
    λ (reader, given, rest). elim rest [
      | inl nothing ↦ rw (given, nothing) refl
      | inr (found, answered, unshared) ↦ rw (given, answered, unshared) refl
    ],
  )

  share_outcome_iff :
      (dwallet : DWalletLookup) (held : ChainRecord) (item_id : Bytes)
      (read : CheckedDWalletRecord Failure Share → Result Failure (Option Share))
      → ((holds_share shares dwallet read >>= λ is_held.
            share_outcome crypto pending records is_held held item_id)
          ≡ ok not_run)
        ↔ (HasNoShare dwallet read
            × IsUnchargedWith crypto pending records ((given_up_share_commit, item_id) ∷ []))
  unfolding share_outcome
  share_outcome_iff dwallet held item_id read = (
    λ h. elim (Result-cases (holds_share shares dwallet read)) [
      | inr (e, failed) ↦ absurd (ground arith)
      | inl (is_held, answered) ↦ elim (Bool-cases is_held) [
        | inl shared ↦ absurd (ground arith)
        | inr unshared ↦ (
          (share_read_iff dwallet read).0 (answered ∙ ap ok unshared),
          (ran_or_not_run_iff crypto pending records ((given_up_share_commit, item_id) ∷ [])).0
              (ground arith),
        )
      ]
    ],
    λ (none_held, a).
        rw ((share_read_iff dwallet read).1 none_held)
          ((ran_or_not_run_iff crypto pending records _).1 a),
  )

  dwallet_outcome_lem :
      (dwallet : DWalletLookup)
      → ¬ (dwallet_outcome crypto pending records shares dwallet ≡ ok not_run)
  unfolding dwallet_outcome
  dwallet_outcome_lem dwallet h = elim (Result-cases (dwallet_record shares dwallet)) [
    | inr (e, failed) ↦ ground arith
    | inl (found, answered) ↦ elim (Option-cases found) [
      | inl nothing ↦ ran_or_unknown crypto pending records [] (ground arith)
      | inr (r, something) ↦ ground arith
    ]
  ]

  step_one_iff :
      (voucher : FutureVoucher)
      → (step_one_outcome crypto pending records voucher ≡ ok not_run) ↔ (
          (voucher.step_one_session ≡ none)
          × (voucher.signature ≡ none)
          × (voucher.closed ≡ false)
          × IsUnchargedWith crypto pending records [])
  unfolding step_one_outcome
  step_one_iff voucher = (
    λ h. elim (Option-cases voucher.step_one_session) [
      | inr (session, stored) ↦ absurd (ground arith)
      | inl waiting ↦ elim (Option-cases voucher.signature) [
        | inr (signature, written) ↦ absurd (ground arith)
        | inl unwritten ↦ elim (Bool-cases voucher.closed) [
          | inl is_closed ↦ absurd (ran_or_unknown crypto pending records [] (ground arith))
          | inr is_open ↦ (
            waiting,
            unwritten,
            is_open,
            (ran_or_not_run_iff crypto pending records []).0 (ground arith),
          )
        ]
      ]
    ],
    λ (waiting, unwritten, is_open, a).
        rw (waiting, unwritten, is_open, step_one_outcome)
          ((ran_or_not_run_iff crypto pending records []).1 a),
  )

  not_run_of_kind :
      (kind : PendingRequestKind)
      → pending.kind ≡ kind
      → (find_session crypto pending records shares ≡ ok not_run) ↔ LeftNothing kind
  unfolding find_session
  not_run_of_kind presign k = rw (k, find_session) (ran_or_not_run_iff crypto pending records _)
  not_run_of_kind (sign voucher) k =
      rw (k, find_session)
        (
          λ h. elim (Result-cases (records.voucher_signature voucher)) [
            | inr (e, failed) ↦ absurd (ground arith)
            | inl (found, answered) ↦ elim (Option-cases found) [
              | inl nothing ↦ (answered ∙ ap ok nothing, given_up_signature_iff.0 (ground arith))
              | inr (s, something) ↦ absurd (ground arith)
            ]
          ],
          λ (nothing, a). rw nothing (given_up_signature_iff.1 a),
        )
  not_run_of_kind (future_sign_step_one voucher) k =
      rw (k, find_session)
        (
          λ h. elim (Result-cases (records.future_voucher voucher)) [
            | inr (e, failed) ↦ absurd (ground arith)
            | inl (found, answered) ↦ elim (Option-cases found) [
              | inl nothing ↦ absurd (ground arith)
              | inr (held, something) ↦
                  let (waiting, unwritten, is_open, a) = (step_one_iff held).0 (ground arith) in
                  ((held, answered ∙ ap ok something, waiting, unwritten, is_open), a)
            ]
          ],
          λ ((held, answered, waiting, unwritten, is_open), a).
              rw answered ((step_one_iff held).1 (waiting, unwritten, is_open, a)),
        )
  not_run_of_kind (future_sign_completion voucher) k =
      rw (k, find_session)
        (
          λ h. elim (Result-cases (records.future_voucher voucher)) [
            | inr (e, failed) ↦ absurd (ground arith)
            | inl (held, answered) ↦ elim (Option-cases (held_signature held)) [
              | inl unwritten ↦
                  ((held, answered, unwritten), given_up_signature_iff.0 (ground arith))
              | inr (s, written) ↦ absurd (ground arith)
            ]
          ],
          λ ((held, answered, unwritten), a). ground (arith, given_up_signature_iff.1 a),
        )
  not_run_of_kind (make_share_public dwallet item_id) k =
      rw (k, find_session)
        (share_outcome_iff dwallet public_share item_id (λ r. r.read_public_share))
  not_run_of_kind (re_encrypt_share dwallet new_holder item_id) k =
      rw (k, find_session)
        (share_outcome_iff dwallet new_holder_share item_id
          (λ r. r.read_encrypted_share new_holder))
  not_run_of_kind (dkg dwallet) k =
      rw (k, find_session) (dwallet_outcome_lem dwallet, λ x. absurd x)
  not_run_of_kind (imported_key dwallet) k =
      rw (k, find_session) (dwallet_outcome_lem dwallet, λ x. absurd x)

  -- The lookup answers that a request never ran just when every read it made answered, no charge of
  -- the request's kind is held by the deposit of its key, and nothing of it was delivered: no
  -- signature in its voucher, no step 1 in a future signature voucher that is there and open, and no
  -- share in the dWallet's record. For a DKG and an imported-key verification it never answers that.
  pub find_session_not_run_iff :
      (find_session crypto pending records shares ≡ ok not_run) ↔ LeftNothing pending.kind
  find_session_not_run_iff = not_run_of_kind pending.kind refl
