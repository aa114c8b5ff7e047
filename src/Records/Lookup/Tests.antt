-- ===== src/Records/Lookup/Tests.antt =====
-- Lookups on chains that hold little, and the theorem about them at a concrete input.
use Prim.Native.String.{String}
use ika_pre_alpha.Prelude.{
  ◌≡◌, ◌↔◌, refl, false, true, Option, none, some, List, [], ◌∷◌, ◌++◌, ok, err,
}
use ika_pre_alpha.Prelude.Bytes.{to_le, from_le, Bytes}
use ika_pre_alpha.Prelude.Int.{pos}
use ika_pre_alpha.Records.{
  BcsValue, bcs_string, bcs_fixed_32, RecordsCrypto, gas_charge_id, signature_commit_item_id,
  refused_request, PendingRequestKind, presign, sign, re_encrypt_share, dkg, PendingRequest,
  settled_at_epoch, RequestRecordReader, DWalletShareReader, DWalletLookup, RequestOutcome,
  charge_record, not_run, ran, needs_share_reader,
}
use ika_pre_alpha.Records.Lookup.{
  charges_of, first_held, or_ran, charge_ids, read_charges, charged, ran_or, dwallet_record,
  dwallet_outcome, find_session, given_up_signature_or,
}
use ika_pre_alpha.Records.Lookup.Shown.{IsShownBy}
use ika_pre_alpha.Records.Lookup.Answers.{IsReadable, find_session_answers}
use ika_pre_alpha.Records.Lookup.NotRun.{LeftNothing, find_session_not_run_iff}

unfoldable value_bytes : List BcsValue → Bytes
value_bytes [] = []
value_bytes (bcs_string text ∷ values) = text ++ (0 ∷ value_bytes values)
value_bytes (bcs_fixed_32 id ∷ values) = id ++ value_bytes values

abbrev crypto : RecordsCrypto
crypto = record {
  keccak_256 = λ bytes. to_le 32 (from_le bytes);
  serialize_tuple = λ values. some (value_bytes values);
}

abbrev session : Bytes
session = to_le 32 7

abbrev pending : PendingRequestKind → PendingRequest
pending kind = record {
  epoch = pos 4;
  session_identifier = session;
  transport_key = 1 ∷ [];
  curve = 0;
  network_key_id = 2 ∷ [];
  kind = kind;
}

abbrev bare : RequestRecordReader String
bare = record {
  has_gas_charge = λ key id. ok false;
  voucher_signature = λ voucher. ok none;
  future_voucher = λ voucher. ok none;
}

abbrev refused : RequestRecordReader String
refused = record bare { has_gas_charge = λ key id. ok true }

abbrev dwallet : DWalletLookup
dwallet = record { curve = 0; public_key = []; imported_session_identifier = none }

abbrev no_shares : Option (DWalletShareReader String String)
no_shares = none

sign_never_ran : find_session crypto (pending (sign session)) bare no_shares ≡ ok not_run
unfolding find_session given_up_signature_or signature_commit_item_id ran_or charged charges_of
    charge_ids read_charges gas_charge_id first_held or_ran
sign_never_ran = refl

presign_was_refused :
    find_session crypto (pending presign) refused no_shares
    ≡ ok (ran (charge_record refused_request))
unfolding find_session ran_or charged charges_of charge_ids read_charges gas_charge_id first_held
    or_ran
presign_was_refused = refl

dkg_needs_the_reader :
    find_session crypto (pending (dkg dwallet)) bare no_shares ≡ err needs_share_reader
unfolding find_session dwallet_outcome dwallet_record
dkg_needs_the_reader = refl

re_encryption_settles_late : settled_at_epoch (pending (re_encrypt_share dwallet [] [])) ≡ pos 6
unfolding settled_at_epoch
re_encryption_settles_late = refl

find_session_not_run_iff_example :
    (find_session crypto (pending (sign session)) bare no_shares ≡ ok not_run)
    ↔ LeftNothing crypto (pending (sign session)) bare no_shares (sign session)
find_session_not_run_iff_example =
    find_session_not_run_iff crypto (pending (sign session)) bare no_shares

-- A chain with no dWallet.
abbrev no_dwallets : DWalletShareReader String String
no_dwallets = record { read_dwallet = λ lookup. ok none }

bare-IsReadable : IsReadable crypto bare no_dwallets
unfolding gas_charge_id signature_commit_item_id
bare-IsReadable = record {
  ids = λ source id h. (_, refl);
  items = λ id h. (_, refl, refl);
  charges = λ key id. (false, refl);
  vouchers = λ voucher. (none, refl);
  future_vouchers = λ voucher. (none, refl);
  dwallets = λ lookup. (none, refl);
  public_shares = λ lookup found h. cc;
  encrypted_shares = λ lookup found holder h. cc;
}

find_session_answers_example :
    (outcome : RequestOutcome) × (find_session crypto
        (pending (re_encrypt_share dwallet [] session))
        bare
        (some no_dwallets)
      ≡ ok outcome)
    × IsShownBy crypto
        (pending (re_encrypt_share dwallet [] session))
        bare
        (some no_dwallets)
        (re_encrypt_share dwallet [] session)
        outcome
find_session_answers_example =
    find_session_answers crypto (pending (re_encrypt_share dwallet [] session)) bare no_dwallets
      bare-IsReadable refl refl
