-- ===== src/Records/Lookup.antt =====
-- sdk/core/src/common/request-records.ts, `findSession`. `Promise.all` rejects with the first read
-- that rejects; of several the model takes the first in the list.
pub mod Uncharged
pub mod NotRun
pub mod Shown
pub mod Answers
mod Tests
use ika_pre_alpha.Prelude.{
  Bool, true, false, Option, none, some, List, [], ◌∷◌, if◌then◌else◌, Result, ok, err, map_err,
  ◌>>=◌,
}
use ika_pre_alpha.Prelude.Bytes.{Bytes, same_bytes}
use ika_pre_alpha.Records.{
  GasChargeSource, refused_request, rejected_session, completed_presign, moved_network_key_session,
  given_up_signature, given_up_share_commit, RecordsCrypto, gas_charge_id, signature_commit_item_id,
  DWalletLookup, presign, sign, future_sign_step_one, future_sign_completion, make_share_public,
  re_encrypt_share, dkg, imported_key, PendingRequest, FutureVoucher, RequestRecordReader,
  CheckedDWalletRecord, DWalletShareReader, charge_record, own_step_one, another_step_one,
  signature_in_voucher, public_share, new_holder_share, the_dwallet, ChainRecord, RequestOutcome,
  not_run, unknown, ran, signature_found, LookupError, needs_share_reader, id_not_serialized,
  read_failed,
}

abbrev pub Charge : Type 0
Charge = GasChargeSource × Bytes

-- The charges of any kind of request.
pub charges_of : Bytes → List Charge → List Charge
charges_of session more =
    (refused_request, session)
    ∷ (rejected_session, session)
    ∷ (moved_network_key_session, session)
    ∷ more

-- `charges.find((_, index) => held[index])`
pub first_held : List Charge → List Bool → Option GasChargeSource
first_held [] held = none
first_held (c ∷ charges) [] = none
first_held ((source, id) ∷ charges) (h ∷ held) = if h then some source else first_held charges held

pub or_ran : RequestOutcome → Option GasChargeSource → RequestOutcome
or_ran otherwise none = otherwise
or_ran otherwise (some source) = ran (charge_record source)

-- `voucher?.signature`
abbrev pub held_signature : Option FutureVoucher → Option Bytes
held_signature none = none
held_signature (some voucher) = voucher.signature

module _ {Failure : Type 0} where
  abbrev pub reading : {A : Type 0} → Result Failure A → Result (LookupError Failure) A
  reading = map_err read_failed

  abbrev pub serialized : Option Bytes → Result (LookupError Failure) Bytes
  serialized none = err id_not_serialized
  serialized (some id) = ok id

  pub read_charges :
      RequestRecordReader Failure → Bytes → List Bytes → Result (LookupError Failure) (List Bool)
  read_charges records transport_key [] = ok []
  read_charges records transport_key (id ∷ ids) = do
    held ← reading (records.has_gas_charge transport_key id)
    rest ← read_charges records transport_key ids
    ok (held ∷ rest)

module _ {Failure : Type 0} (crypto : RecordsCrypto) where
  pub charge_ids : List Charge → Result (LookupError Failure) (List Bytes)
  charge_ids [] = ok []
  charge_ids ((source, id) ∷ charges) = do
    charge_id ← serialized (gas_charge_id crypto source id)
    rest ← charge_ids charges
    ok (charge_id ∷ rest)

  pub charged :
      PendingRequest
      → RequestRecordReader Failure
      → List Charge
      → Result (LookupError Failure) (Option GasChargeSource)
  charged pending records more = do
    let charges = charges_of pending.session_identifier more
    ids ← charge_ids charges
    held ← read_charges records pending.transport_key ids
    ok (first_held charges held)

  pub ran_or :
      PendingRequest
      → RequestRecordReader Failure
      → RequestOutcome
      → List Charge
      → Result (LookupError Failure) RequestOutcome
  ran_or pending records otherwise more = do
    found ← charged pending records more
    ok (or_ran otherwise found)

  pub given_up_signature_or :
      PendingRequest → RequestRecordReader Failure → Result (LookupError Failure) RequestOutcome
  given_up_signature_or pending records = do
    id ← serialized (signature_commit_item_id crypto pending.session_identifier)
    ran_or pending records not_run ((given_up_signature, id) ∷ [])

  -- What a future signature voucher decides before its step 1 is answered.
  pub step_one_outcome :
      PendingRequest
      → RequestRecordReader Failure
      → FutureVoucher
      → Result (LookupError Failure) RequestOutcome
  step_one_outcome pending records voucher = elim voucher.step_one_session [
    | some session ↦ ok (
        ran (
          if same_bytes session pending.session_identifier then own_step_one else another_step_one))
    | none ↦ elim voucher.signature [
      | some signature ↦ ok (ran signature_in_voucher)
      | none ↦ ran_or pending records (if voucher.closed then unknown else not_run) []
    ]
  ]

  -- A make-public or a re-encryption, once it is known whether its share is on the chain.
  pub share_outcome :
      PendingRequest
      → RequestRecordReader Failure
      → Bool
      → ChainRecord
      → Bytes
      → Result (LookupError Failure) RequestOutcome
  share_outcome pending records is_held held item_id =
      if is_held
      then ok (ran held)
      else ran_or pending records not_run ((given_up_share_commit, item_id) ∷ [])

module _ {Failure Share : Type 0} where
  pub dwallet_record :
      Option (DWalletShareReader Failure Share)
      → DWalletLookup
      → Result (LookupError Failure) (Option (CheckedDWalletRecord Failure Share))
  dwallet_record none dwallet = err needs_share_reader
  dwallet_record (some shares) dwallet = reading (shares.read_dwallet dwallet)

  -- `record?.readPublicShare()` and `record?.readEncryptedShare(…)`, whether a share was read.
  pub share_read :
      Option (CheckedDWalletRecord Failure Share)
      → (CheckedDWalletRecord Failure Share → Result Failure (Option Share))
      → Result (LookupError Failure) Bool
  share_read none read = ok false
  share_read (some record_found) read = do
    share ← reading (read record_found)
    ok (elim share [ none ↦ false | some s ↦ true ])

  pub holds_share :
      Option (DWalletShareReader Failure Share)
      → DWalletLookup
      → (CheckedDWalletRecord Failure Share → Result Failure (Option Share))
      → Result (LookupError Failure) Bool
  unfolding dwallet_record share_read
  holds_share shares dwallet read = do found ← dwallet_record shares dwallet; share_read found read

module _ {Failure Share : Type 0} (crypto : RecordsCrypto) where
  -- A DKG, or an imported-key verification.
  pub dwallet_outcome :
      PendingRequest
      → RequestRecordReader Failure
      → Option (DWalletShareReader Failure Share)
      → DWalletLookup
      → Result (LookupError Failure) RequestOutcome
  dwallet_outcome pending records shares dwallet = do
    found ← dwallet_record shares dwallet
    elim found [ some r ↦ ok (ran the_dwallet) | none ↦ ran_or crypto pending records unknown [] ]

  pub find_session :
      PendingRequest
      → RequestRecordReader Failure
      → Option (DWalletShareReader Failure Share)
      → Result (LookupError Failure) RequestOutcome
  find_session pending records shares = elim pending.kind [
    | presign ↦
        ran_or crypto pending records not_run ((completed_presign, pending.session_identifier) ∷ [])
    | sign voucher ↦ do
      signature ← reading (records.voucher_signature voucher)
      elim signature [
        | some s ↦ ok (signature_found s)
        | none ↦ given_up_signature_or crypto pending records
      ]
    | future_sign_step_one voucher ↦ do
      held ← reading (records.future_voucher voucher)
      elim held [ none ↦ ok unknown | some v ↦ step_one_outcome crypto pending records v ]
    | future_sign_completion voucher ↦ do
      held ← reading (records.future_voucher voucher)
      elim (held_signature held) [
        | some s ↦ ok (signature_found s)
        | none ↦ given_up_signature_or crypto pending records
      ]
    | make_share_public dwallet item_id ↦ do
      is_public ← holds_share shares dwallet (λ r. r.read_public_share)
      share_outcome crypto pending records is_public public_share item_id
    | re_encrypt_share dwallet new_holder item_id ↦ do
      is_held ← holds_share shares dwallet (λ r. r.read_encrypted_share new_holder)
      share_outcome crypto pending records is_held new_holder_share item_id
    | dkg dwallet ↦ dwallet_outcome pending records shares dwallet
    | imported_key dwallet ↦ dwallet_outcome pending records shares dwallet
  ]
