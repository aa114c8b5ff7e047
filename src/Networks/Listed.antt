-- ===== src/Networks/Listed.antt =====
-- The reader over a network's list shows a part of what the reader beneath it shows.
use ika_pre_alpha.Prelude.{
  ◌≡◌, inl, inr, true, Option, none, some, any, ok, ap, ◌∙◌, Result-cases, Bool-cases, arith,
}
use ika_pre_alpha.Prelude.Bytes.{Bytes, same_bytes, same_bytes_iff}
use ika_pre_alpha.Prelude.Int.{ℤ}
use ika_pre_alpha.Networks.{
  DeployedNetworkName, DeployedNetwork, DeployedNetworkKey, NetworkKeyRecordChain,
  NetworkKeyOutputRecord, NetworkKeyOutputRecordReader, is_empty, listed_network_key_in,
  listed_address, listed_at, checked_digest, listed_network_key_record_reader_in,
}
use ika_pre_alpha.Networks.Refusal.{IsEntry, any-some, IsEntry-of_listed}

module _ (table : DeployedNetwork) (chain : NetworkKeyRecordChain)
    (record_address : Bytes → Bytes) where
  -- The key is listed, at the address that its record is read from.
  pub record IsListedAt (key : Bytes) (entry : DeployedNetworkKey) : Type 0 where
    pub is_entry : IsEntry table key entry
    pub address : record_address key ≡ listed_address chain entry

  -- What `view` answers, `reader` answers, of listed keys only, and a DKG record has the listed digest.
  pub record IsListedView (reader view : NetworkKeyOutputRecordReader) : Type 0 where
    pub dkg :
        (key : Bytes) (answer : Option NetworkKeyOutputRecord)
        → view.dkg_record key ≡ ok answer
        → (entry : DeployedNetworkKey) × IsListedAt key entry
          × (reader.dkg_record key ≡ ok answer)
          × ((stored : NetworkKeyOutputRecord)
              → answer ≡ some stored
              → stored.digest ≡ entry.dkg_output_digest)
    pub reconfiguration :
        (key : Bytes) (epoch : ℤ) (answer : Option NetworkKeyOutputRecord)
        → view.reconfiguration_record key epoch ≡ ok answer
        → (entry : DeployedNetworkKey) × IsListedAt key entry
          × (reader.reconfiguration_record key epoch ≡ ok answer)
    pub registered :
        (key : Bytes)
        → view.is_registered_network_key key ≡ ok true
        → ((entry : DeployedNetworkKey) × IsEntry table key entry)
          × (reader.is_registered_network_key key ≡ ok true)

  module _ (name : DeployedNetworkName) where
    IsListedAt-of_listed :
        (key : Bytes) (entry : DeployedNetworkKey)
        → listed_at table name chain record_address key ≡ ok entry
        → IsListedAt key entry
    unfolding listed_at
    IsListedAt-of_listed key entry h = elim (Result-cases (listed_network_key_in table name key)) [
      | inr (error, failed) ↦ absurd (ground arith)
      | inl (found, e) ↦
          let at : same_bytes (record_address key) (listed_address chain found) ≡ true =
            ground arith in
          let same : found ≡ entry = ground arith in
          record {
            is_entry = IsEntry-of_listed table name key entry (ground arith);
            address =
                (same_bytes_iff (record_address key) (listed_address chain found)).0 at
                ∙ ap (listed_address chain) same;
          }
    ]

    digest-of_checked :
        (key : Bytes) (entry : DeployedNetworkKey) (answer result : Option NetworkKeyOutputRecord)
        → checked_digest table name chain record_address key entry answer ≡ ok result
        → (answer ≡ result)
          × ((stored : NetworkKeyOutputRecord)
              → answer ≡ some stored
              → stored.digest ≡ entry.dkg_output_digest)
    unfolding checked_digest
    digest-of_checked key entry none result h = (ground arith, λ stored e. absurd (ground arith))
    digest-of_checked key entry (some found) result h =
        let same : same_bytes found.digest entry.dkg_output_digest ≡ true = ground arith in
        let digests = (same_bytes_iff found.digest entry.dkg_output_digest).0 same in
        (ground arith, λ stored e. let is : stored ≡ found = cc in ap (λ x. x.digest) is ∙ digests)

    -- The reader that is wrapped for a deployed network answers only what the chain's reader answers:
    -- a DKG or reshare record only of a key that the list holds and whose record address is the
    -- listed one, a DKG record only with that entry's digest, and a key as registered only where
    -- the list holds it and the chain's reader says so.
    pub listed_network_key_record_reader_in-IsListedView :
        (reader : NetworkKeyOutputRecordReader)
        → IsListedView reader
            (listed_network_key_record_reader_in table name chain record_address reader)
    unfolding listed_network_key_record_reader_in
    listed_network_key_record_reader_in-IsListedView reader = record {
      dkg = λ key answer h. elim (Result-cases (listed_at table name chain record_address key)) [
        | inr (error, failed) ↦ absurd (ground arith)
        | inl (entry, listed) ↦ elim (Result-cases (reader.dkg_record key)) [
          | inr (error, failed) ↦ absurd (ground arith)
          | inl (read, e) ↦
              let (same, digest) = digest-of_checked key entry read answer (ground arith) in
              (
                entry,
                IsListedAt-of_listed key entry listed,
                ground arith,
                λ stored is. digest stored (same ∙ is),
              )
        ]
      ];
      reconfiguration = λ key epoch answer h.
          elim (Result-cases (listed_at table name chain record_address key)) [
            | inr (error, failed) ↦ absurd (ground arith)
            | inl (entry, listed) ↦ (entry, IsListedAt-of_listed key entry listed, ground arith)
          ];
      registered = λ key h.
          elim (Bool-cases (any (λ e. same_bytes e.noa_public_key key) table.network_keys)) [
            | inl some_entry ↦
                let (entry, held, same) =
                  any-some (λ e. same_bytes e.noa_public_key key) table.network_keys some_entry in
                let of_key = (same_bytes_iff entry.noa_public_key key).0 same in
                (
                  (entry, record { held = held; of_key = of_key }),
                  elim (Bool-cases (is_empty table.network_keys)) [
                    | inl none_listed ↦ absurd (ground arith)
                    | inr filled ↦ ground arith
                  ],
                )
            | inr no_entry ↦ absurd (elim (Bool-cases (is_empty table.network_keys)) [
              | inl none_listed ↦ ground arith
              | inr filled ↦ ground arith
            ])
          ];
    }
