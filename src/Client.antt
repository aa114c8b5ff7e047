-- ===== src/Client.antt =====
-- sdk/core/src/grpc/dwallet-client.ts and sdk/core/src/grpc/transport.ts: the rules that every
-- transport of the dWallet gRPC client shares. A thrown error is what the rules read of it: its gRPC
-- status, its details, and the flags that a transport sets on it. The sentences that the rules compare
-- details with are constructors of `Details`. Times are whole milliseconds.
pub mod Submit
use Prim.Native.String.{String}
use ika_pre_alpha.Prelude.{
  ℕ, zero, suc, ◌-◌, Bool, true, false, not, ◌&&◌, ◌||◌, Option, none, some, List, [], ◌∷◌, ◌==◌,
  ltb, if◌then◌else◌,
}
use ika_pre_alpha.Prelude.Bytes.{Bytes}

pub record SignedGrpcRequest : Type 0 where
  pub user_signature : Bytes
  pub signed_request_data : Bytes

-- `GrpcStatus`
abbrev pub deadline_exceeded : ℕ
deadline_exceeded = 4

abbrev pub failed_precondition : ℕ
failed_precondition = 9

abbrev pub unavailable : ℕ
unavailable = 14

pub data Details : Type 0 where
  epoch_closing_refusal gas_wait_ended_with_the_epoch every_validator_refused_details : Details
  other_details : String → Details

pub record GrpcError : Type 0 where
  pub code : Option ℕ
  pub details : Option Details
  pub refused_pinned_setup : Bool
  pub not_a_committee_member : Bool

-- An error that a call of the client throws: a validator's, the one that `everyValidatorRefused`
-- builds from the last refusal, or `undefined`, which `throw lastError` throws when there is none.
pub data ThrownError : Type 0 where
  thrown : GrpcError → ThrownError
  every_validator_refused : Option GrpcError → ThrownError
  undefined_thrown : ThrownError

abbrev pub has_code : ℕ → Option ℕ → Bool
has_code status none = false
has_code status (some code) = code == status

abbrev pub is_closing_sentence : Option Details → Bool
is_closing_sentence (some epoch_closing_refusal) = true
is_closing_sentence (some gas_wait_ended_with_the_epoch) = true
is_closing_sentence (some every_validator_refused_details) = false
is_closing_sentence (some (other_details text)) = false
is_closing_sentence none = false

pub is_epoch_closing_refusal : GrpcError → Bool
is_epoch_closing_refusal error =
    has_code unavailable error.code && is_closing_sentence error.details

abbrev pub is_refused_pinned_setup : GrpcError → Bool
is_refused_pinned_setup error = error.refused_pinned_setup

abbrev pub is_not_a_committee_member : GrpcError → Bool
is_not_a_committee_member error = error.not_a_committee_member

pub mark_refused_pinned_setup : GrpcError → GrpcError
mark_refused_pinned_setup error = record error { refused_pinned_setup = true }

pub mark_not_a_committee_member : GrpcError → GrpcError
unfolding mark_refused_pinned_setup
mark_not_a_committee_member error = record (mark_refused_pinned_setup error) {
  not_a_committee_member = true;
}

pub is_transport_failure : GrpcError → Bool
is_transport_failure error =
    if is_refused_pinned_setup error
    then false
    else has_code unavailable error.code || has_code deadline_exceeded error.code

-- The fields of `everyValidatorRefused`'s error that the rules read.
pub as_grpc_error : ThrownError → GrpcError
unfolding mark_refused_pinned_setup
as_grpc_error (thrown error) = error
as_grpc_error (every_validator_refused last) = mark_refused_pinned_setup (record {
  code = some failed_precondition;
  details = some every_validator_refused_details;
  refused_pinned_setup = false;
  not_a_committee_member = false;
})
as_grpc_error undefined_thrown = record {
  code = none;
  details = none;
  refused_pinned_setup = false;
  not_a_committee_member = false;
}

-- The record of refused validators: a `Map` from indexes to the times of their last refusal.
abbrev pub Refused : Type 0
Refused = List (ℕ × ℕ)

pub refused_at : ℕ → Refused → Option ℕ
refused_at index [] = none
refused_at index ((i, time) ∷ refused) = if i == index then some time else refused_at index refused

-- `Map.set`
pub set_refused : ℕ → ℕ → Refused → Refused
set_refused index time [] = (index, time) ∷ []
set_refused index time ((i, old_time) ∷ refused) =
    if i == index then (i, time) ∷ refused else (i, old_time) ∷ set_refused index time refused

abbrev pub pin_refusal_max_age_ms : ℕ
pin_refusal_max_age_ms = 60_000

-- The clock is monotonic, so that the subtraction stops nowhere.
pub is_refused : ℕ → Refused → ℕ → ℕ → Bool
unfolding refused_at
is_refused refusal_max_age_ms refused now index = elim (refused_at index refused) [
  | none ↦ false
  | some time ↦ ltb (now - time) refusal_max_age_ms
]

abbrev pub indexes_from : ℕ → ℕ → List ℕ
indexes_from first zero = []
indexes_from first (suc count) = first ∷ indexes_from (suc first) count

-- How many further validators there are.
pub validator_indexes : ℕ → List ℕ
validator_indexes further = indexes_from 0 (suc further)
