-- ===== src/Networks.antt =====
-- sdk/core/src/grpc/deployed-networks.ts and deployed-networks-internal.ts: the network keys the SDK
-- lists, the keys that a caller trusts, and the reader that holds a chain's records against the list.
-- A reader is a record of functions, an error of a read carries its text, and of an error's message
-- the model keeps the values it names. A copied byte array is the array.
pub mod Refusal
pub mod Listed
mod Tests
use Prim.Native.String.{String}
use ika_pre_alpha.Prelude.{
  ℕ, ◌+◌, Bool, true, false, not, ◌&&◌, Option, none, some, List, [], ◌∷◌, ◌==◌, if◌then◌else◌,
  length, any, find?, map, Result, ok, err, guard, ◌>>=◌, ◌>>◌,
}
use ika_pre_alpha.Prelude.Bytes.{Bytes, same_bytes, among}
use ika_pre_alpha.Prelude.Int.{ℤ}

pub data DeployedNetworkName : Type 0 where
  mainnet testnet : DeployedNetworkName

pub data IkaNetwork : Type 0 where
  deployed : DeployedNetworkName → IkaNetwork
  custom : List Bytes → IkaNetwork

pub record DeployedNetworkKey : Type 0 where
  pub noa_public_key : Bytes
  pub dkg_output_digest : Bytes
  pub sui_record_address : Bytes
  pub solana_record_address : Bytes

pub record DeployedNetwork : Type 0 where
  pub network_keys : List DeployedNetworkKey
  pub network : ℕ
  pub sui_chain_number : ℕ
  pub solana_chain_number : ℕ

pub record TrustedNetworkKeys : Type 0 where
  pub network : IkaNetwork
  pub public_keys : List Bytes

pub data NetworkKeyRecordChain : Type 0 where
  sui solana : NetworkKeyRecordChain

pub data NetworkError : Type 0 where
  not_deployed : DeployedNetworkName → NetworkError
  not_a_network_key : Bytes → DeployedNetworkName → NetworkError
  key_length : ℕ → NetworkError
  another_address : Bytes → NetworkError
  another_digest : Bytes → NetworkError
  read_failed : String → NetworkError

pub data NetworkKeyRefusal : Type 0 where
  not_trusted : NetworkKeyRefusal
  not_the_expected_key : NetworkKeyRefusal
  not_listed : NetworkError → NetworkKeyRefusal

pub record NetworkKeyOutputRecord : Type 0 where
  pub digest : Bytes
  pub proof : Bytes

pub record NetworkKeyOutputRecordReader : Type 0 where
  pub dkg_record : Bytes → Result NetworkError (Option NetworkKeyOutputRecord)
  pub reconfiguration_record : Bytes → ℤ → Result NetworkError (Option NetworkKeyOutputRecord)
  pub is_registered_network_key : Bytes → Result NetworkError Bool

abbrev pub is_empty {ℓ} : {A : Type ℓ} → List A → Bool
is_empty [] = true
is_empty (x ∷ xs) = false

pub listed_network_key_in :
    DeployedNetwork → DeployedNetworkName → Bytes → Result NetworkError DeployedNetworkKey
listed_network_key_in table name key =
    guard (not (is_empty table.network_keys)) (not_deployed name)
    >> elim (find? (λ entry. same_bytes entry.noa_public_key key) table.network_keys) [
      | none ↦ err (not_a_network_key key name)
      | some entry ↦ ok entry
    ]

-- `trusted` is the optional argument `trustedNetworkKeys`.
unfoldable pub attestation_network_key_refusal_in :
    (DeployedNetworkName → DeployedNetwork)
    → Bytes
    → Bytes
    → IkaNetwork
    → Option TrustedNetworkKeys
    → Option NetworkKeyRefusal
attestation_network_key_refusal_in tables named expected network trusted =
    let listed : Option NetworkKeyRefusal = elim network [
      | custom keys ↦ none
      | deployed name ↦ elim (listed_network_key_in (tables name) name expected) [
        | err error ↦ some (not_listed error)
        | ok entry ↦ none
      ]
    ] in
    let is_trusted : Bool = elim trusted [
      | none ↦ true
      | some keys ↦ among named keys.public_keys
    ] in
    if not is_trusted
    then some not_trusted
    else if not (same_bytes named expected)
    then some not_the_expected_key
    else listed

pub trusted_network_keys_in :
    DeployedNetwork → DeployedNetworkName → Result NetworkError TrustedNetworkKeys
trusted_network_keys_in table name =
    guard (not (is_empty table.network_keys)) (not_deployed name)
    >> ok (record {
      network = deployed name;
      public_keys = map (λ key. key.noa_public_key) table.network_keys;
    })

abbrev pub ika_deployed_networks : DeployedNetworkName → DeployedNetwork
ika_deployed_networks mainnet = record {
  network_keys = [];
  network = 1;
  sui_chain_number = 2;
  solana_chain_number = 1;
}
ika_deployed_networks testnet = record {
  network_keys = [];
  network = 2;
  sui_chain_number = 0;
  solana_chain_number = 0;
}

pub listed_network_key : IkaNetwork → Bytes → Result NetworkError (Option DeployedNetworkKey)
listed_network_key (custom keys) key = ok none
listed_network_key (deployed name) key =
    listed_network_key_in (ika_deployed_networks name) name key >>= λ entry. ok (some entry)

pub deployed_network_value : DeployedNetworkName → ℕ
deployed_network_value name = (ika_deployed_networks name).network

abbrev pub local_network_value : ℕ
local_network_value = 3

pub request_network_value : IkaNetwork → ℕ
request_network_value (deployed name) = deployed_network_value name
request_network_value (custom keys) = local_network_value

pub deployed_sui_chain_number : DeployedNetworkName → Result NetworkError ℕ
deployed_sui_chain_number name =
    let number = (ika_deployed_networks name).sui_chain_number in
    guard (not (number == 0)) (not_deployed name) >> ok number

pub deployed_solana_chain_number : DeployedNetworkName → Result NetworkError ℕ
deployed_solana_chain_number name =
    let number = (ika_deployed_networks name).solana_chain_number in
    guard (not (number == 0)) (not_deployed name) >> ok number

-- Each of the caller's own keys has 32 bytes, or the first that has not is refused.
pub checked_keys : List Bytes → Result NetworkError (List Bytes)
checked_keys [] = ok []
checked_keys (key ∷ keys) =
    let rest = checked_keys keys in
    guard (length key == 32) (key_length (length key)) >> rest >>= λ checked. ok (key ∷ checked)

pub trusted_network_keys : IkaNetwork → Result NetworkError TrustedNetworkKeys
trusted_network_keys (deployed name) = trusted_network_keys_in (ika_deployed_networks name) name
trusted_network_keys (custom keys) = do
  public_keys ← checked_keys keys
  ok (record { network = custom public_keys; public_keys = public_keys })

abbrev pub listed_address : NetworkKeyRecordChain → DeployedNetworkKey → Bytes
listed_address sui entry = entry.sui_record_address
listed_address solana entry = entry.solana_record_address

module _ (table : DeployedNetwork) (name : DeployedNetworkName) (chain : NetworkKeyRecordChain)
    (record_address : Bytes → Bytes) where
  pub listed_at : Bytes → Result NetworkError DeployedNetworkKey
  listed_at key = do
    entry ← listed_network_key_in table name key
    guard (same_bytes (record_address key) (listed_address chain entry)) (another_address key)
    ok entry

  pub checked_digest :
      Bytes
      → DeployedNetworkKey
      → Option NetworkKeyOutputRecord
      → Result NetworkError (Option NetworkKeyOutputRecord)
  checked_digest key entry none = ok none
  checked_digest key entry (some stored) =
      guard (same_bytes stored.digest entry.dkg_output_digest) (another_digest key)
      >> ok (some stored)

  pub listed_network_key_record_reader_in :
      NetworkKeyOutputRecordReader → NetworkKeyOutputRecordReader
  listed_network_key_record_reader_in reader = record {
    dkg_record = λ key. listed_at key >>= λ entry.
        reader.dkg_record key >>= λ stored. checked_digest key entry stored;
    reconfiguration_record =
        λ key epoch. listed_at key >>= λ entry. reader.reconfiguration_record key epoch;
    is_registered_network_key = λ key.
        guard (not (is_empty table.network_keys)) (not_deployed name)
        >> (if not (any (λ entry. same_bytes entry.noa_public_key key) table.network_keys)
            then ok false
            else reader.is_registered_network_key key);
  }

pub listed_network_key_record_reader :
    NetworkKeyOutputRecordReader
    → IkaNetwork
    → NetworkKeyRecordChain
    → (Bytes → Bytes)
    → NetworkKeyOutputRecordReader
listed_network_key_record_reader reader (custom keys) chain record_address = reader
listed_network_key_record_reader reader (deployed name) chain record_address =
    listed_network_key_record_reader_in (ika_deployed_networks name) name chain record_address
      reader
