-- ===== src/Records/Lookup/Answers.antt =====
-- When the lookup answers at all, and with what.
use ika_pre_alpha.Prelude.{
  ◌≡◌, ◌∙◌, ap, refl, length, All, Bool, true, false, if◌then◌else◌, Option, none, some, List, [],
  ◌∷◌, Result, ok, arith, Option-cases, inl, inr,
}
use ika_pre_alpha.Prelude.Bytes.{Bytes, same_bytes}
use ika_pre_alpha.Records.{
  GasChargeSource, given_up_signature, RecordsCrypto, gas_charge_id, signature_commit_item_id,
  DWalletLookup, PendingRequestKind, presign, sign, future_sign_step_one, future_sign_completion,
  make_share_public, re_encrypt_share, dkg, imported_key, PendingRequest, FutureVoucher,
  RequestRecordReader, CheckedDWalletRecord, DWalletShareReader, ChainRecord, RequestOutcome,
  public_share, new_holder_share, not_run, unknown, ran, own_step_one, another_step_one,
  signature_in_voucher, the_dwallet, signature_found,
}
use ika_pre_alpha.Records.Lookup.Shown.{IsShownBy, find_session-IsShownBy}
use ika_pre_alpha.Records.Lookup.{
  Charge, charges_of, first_held, or_ran, held_signature, charge_ids, read_charges, charged, ran_or,
  given_up_signature_or, step_one_outcome, dwallet_record, share_read, holds_share, share_outcome,
  dwallet_outcome, find_session,
}

abbrev Yields {ℓ κ} : {E : Type ℓ} {A : Type κ} → Result E A → Type (ℓ ⊔ κ)
Yields {A = A} r = (a : A) × (r ≡ ok a)

abbrev Is32 : Charge → Type 0
Is32 (source, id) = length id ≡ 32

-- The settled item id of a request that has one is 32 bytes.
abbrev pub HasItemId : PendingRequestKind → Type 0
HasItemId (make_share_public dwallet item_id) = length item_id ≡ 32
HasItemId (re_encrypt_share dwallet new_holder item_id) = length item_id ≡ 32
HasItemId _ = Unit

-- Every read of the chain answers, every id of 32 bytes serializes, and an item id is 32 bytes.
pub record IsReadable {Failure Share : Type 0} (crypto : RecordsCrypto)
    (records : RequestRecordReader Failure) (reader : DWalletShareReader Failure Share)
    : Type 0 where
  pub ids :
      (source : GasChargeSource) (id : Bytes)
      → length id ≡ 32
      → (charge_id : Bytes) × (gas_charge_id crypto source id ≡ some charge_id)
  pub items :
      (session : Bytes)
      → length session ≡ 32
      → (id : Bytes) × (signature_commit_item_id crypto session ≡ some id) × (length id ≡ 32)
  pub charges : (key id : Bytes) → Yields (records.has_gas_charge key id)
  pub vouchers : (voucher : Bytes) → Yields (records.voucher_signature voucher)
  pub future_vouchers : (voucher : Bytes) → Yields (records.future_voucher voucher)
  pub dwallets : (dwallet : DWalletLookup) → Yields (reader.read_dwallet dwallet)
  pub public_shares :
      (dwallet : DWalletLookup) (found : CheckedDWalletRecord Failure Share)
      → reader.read_dwallet dwallet ≡ ok (some found)
      → Yields found.read_public_share
  pub encrypted_shares :
      (dwallet : DWalletLookup) (found : CheckedDWalletRecord Failure Share) (holder : Bytes)
      → reader.read_dwallet dwallet ≡ ok (some found)
      → Yields (found.read_encrypted_share holder)

module _ {Failure Share : Type 0} (crypto : RecordsCrypto) (pending : PendingRequest)
    (records : RequestRecordReader Failure) (reader : DWalletShareReader Failure Share)
    (readable : IsReadable crypto records reader)
    (session_length : length pending.session_identifier ≡ 32) where
  charge_ids_answer :
      (charges : List Charge)
      → All Is32 charges
      → Yields (charge_ids {Failure = Failure} crypto charges)
  unfolding charge_ids
  charge_ids_answer [] a = ([], refl)
  charge_ids_answer ((source, id) ∷ charges) (p, a) =
      let (charge_id, given) = readable.ids source id p in
      let (ids, more) = charge_ids_answer charges a in (charge_id ∷ ids, rw (given, more) refl)

  read_charges_answer : (ids : List Bytes) → Yields (read_charges records pending.transport_key ids)
  unfolding read_charges
  read_charges_answer [] = ([], refl)
  read_charges_answer (id ∷ ids) =
      let (h, given) = readable.charges pending.transport_key id in
      let (held, more) = read_charges_answer ids in (h ∷ held, rw (given, more) refl)

  ran_or_answers :
      (otherwise : RequestOutcome) (more : List Charge)
      → All Is32 more
      → Yields (ran_or crypto pending records otherwise more)
  unfolding ran_or charged charges_of
  ran_or_answers otherwise more a =
      let charges = charges_of pending.session_identifier more in
      let (ids, given) =
        charge_ids_answer charges (session_length, (session_length, (session_length, a))) in
      let (held, reads) = read_charges_answer ids in
      (or_ran otherwise (first_held charges held), rw (given, reads) refl)

  given_up_answers : Yields (given_up_signature_or crypto pending records)
  unfolding given_up_signature_or
  given_up_answers =
      let (id, given, id_length) = readable.items pending.session_identifier session_length in
      let (outcome, answers) =
        ran_or_answers not_run ((given_up_signature, id) ∷ []) (id_length, tt) in
      (outcome, rw given answers)

  step_one_answers :
      (voucher : FutureVoucher) → Yields (step_one_outcome crypto pending records voucher)
  unfolding step_one_outcome
  step_one_answers voucher = elim (Option-cases voucher.step_one_session) [
    | inr (session, stored) ↦ (
      ran (
          if same_bytes session pending.session_identifier then own_step_one else another_step_one),
      rw (stored, step_one_outcome) refl,
    )
    | inl waiting ↦ elim (Option-cases voucher.signature) [
      | inr (signature, written) ↦
          (ran signature_in_voucher, rw (waiting, written, step_one_outcome) refl)
      | inl unwritten ↦ rw (waiting, unwritten, step_one_outcome) (ran_or_answers _ [] tt)
    ]
  ]

  dwallet_answers :
      (dwallet : DWalletLookup)
      → Yields (dwallet_outcome crypto pending records (some reader) dwallet)
  unfolding dwallet_outcome dwallet_record
  dwallet_answers dwallet =
      let (found, given) = readable.dwallets dwallet in
      elim (Option-cases found) [
        | inl nothing ↦ rw (given, nothing) (ran_or_answers unknown [] tt)
        | inr (r, something) ↦ (ran the_dwallet, rw (given, something) refl)
      ]

  share_outcome_answers :
      (is_held : Bool) (held : ChainRecord) (item_id : Bytes)
      → length item_id ≡ 32
      → Yields (share_outcome crypto pending records is_held held item_id)
  unfolding share_outcome
  share_outcome_answers true held item_id h = (ran held, refl)
  share_outcome_answers false held item_id h = ran_or_answers not_run _ (h, tt)

  holds_share_answers :
      (dwallet : DWalletLookup)
      (read : CheckedDWalletRecord Failure Share → Result Failure (Option Share))
      → ((found : CheckedDWalletRecord Failure Share)
          → reader.read_dwallet dwallet ≡ ok (some found)
          → Yields (read found))
      → Yields (holds_share (some reader) dwallet read)
  unfolding holds_share dwallet_record share_read
  holds_share_answers dwallet read reads =
      let (found, given) = readable.dwallets dwallet in
      elim (Option-cases found) [
        | inl nothing ↦ (false, rw (given, nothing) refl)
        | inr (r, something) ↦
            let (share, answers) = reads r (given ∙ ap ok something) in
            (
              elim share as (λ x. Bool) [ none ↦ false | some s ↦ true ],
              rw (given, something, answers) refl,
            )
      ]

  answers_of_kind :
      (kind : PendingRequestKind)
      → HasItemId kind
      → pending.kind ≡ kind
      → Yields (find_session crypto pending records (some reader))
  unfolding find_session
  answers_of_kind presign item_length k =
      rw (k, find_session) (ran_or_answers not_run _ (session_length, tt))
  answers_of_kind (sign voucher) item_length k =
      let (found, given) = readable.vouchers voucher in
      elim (Option-cases found) [
        | inl nothing ↦ rw (k, given, nothing, find_session) given_up_answers
        | inr (s, something) ↦ (signature_found s, rw (k, given, something, find_session) refl)
      ]
  answers_of_kind (future_sign_step_one voucher) item_length k =
      let (found, given) = readable.future_vouchers voucher in
      elim (Option-cases found) [
        | inl nothing ↦ (unknown, rw (k, given, nothing, find_session) refl)
        | inr (held, something) ↦ rw (k, given, something, find_session) (step_one_answers held)
      ]
  answers_of_kind (future_sign_completion voucher) item_length k =
      let (found, given) = readable.future_vouchers voucher in
      elim (Option-cases (held_signature found)) [
        | inl nothing ↦
            let (outcome, answers) = given_up_answers in
            rw (k, find_session) (outcome, ground arith)
        | inr (s, something) ↦ rw (k, find_session) (signature_found s, ground arith)
      ]
  answers_of_kind (make_share_public dwallet item_id) item_length k =
      let (is_held, given) =
        holds_share_answers dwallet (λ r. r.read_public_share)
          (λ found. readable.public_shares dwallet found) in
      rw (k, given, find_session) (share_outcome_answers is_held public_share item_id item_length)
  answers_of_kind (re_encrypt_share dwallet new_holder item_id) item_length k =
      let (is_held, given) =
        holds_share_answers dwallet (λ r. r.read_encrypted_share new_holder)
          (λ found. readable.encrypted_shares dwallet found new_holder) in
      rw (k, given, find_session)
        (share_outcome_answers is_held new_holder_share item_id item_length)
  answers_of_kind (dkg dwallet) item_length k = rw (k, find_session) (dwallet_answers dwallet)
  answers_of_kind (imported_key dwallet) item_length k =
      rw (k, find_session) (dwallet_answers dwallet)

  -- The lookup of a request of any kind answers an outcome when its session identifier and its item
  -- id, if it has one, are 32 bytes, every read of the chain answers, and every id of 32 bytes
  -- serializes. The outcome is what the chain shows of the request's kind: the signature, the voucher's
  -- step 1, the share or the dWallet that it holds, and where it holds none of them, the first held
  -- charge of the kind's, in the order in which they are asked; with no charge held it is `not_run`, but
  -- `unknown` for a DKG, an imported-key verification, and a step 1 whose voucher is closed. A step 1
  -- whose voucher is missing is `unknown` at once.
  pub find_session_answers :
      HasItemId pending.kind
      → (outcome : RequestOutcome) × (find_session crypto pending records (some reader)
          ≡ ok outcome)
        × IsShownBy crypto pending records (some reader) pending.kind outcome
  find_session_answers item_length =
      let (outcome, answers) = answers_of_kind pending.kind item_length refl in
      (
        outcome,
        answers,
        find_session-IsShownBy crypto pending records (some reader) outcome answers,
      )
