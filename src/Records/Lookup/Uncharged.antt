-- ===== src/Records/Lookup/Uncharged.antt =====
-- The charges of a request, read: which of them the deposit holds.
use ika_pre_alpha.Prelude.{
  ◌⊎◌, true, some, ◌≡◌, ◌≢◌, ◌↔◌, sym, ◌∙◌, inl, inr, refl, ap, Bool, false, none, some, List, [],
  ◌∷◌, if◌then◌else◌, ok, All, arith, Bool-cases, Option-cases, Result-cases,
}
use ika_pre_alpha.Prelude.Bytes.{Bytes}
use ika_pre_alpha.Records.{
  refused_request, rejected_session, moved_network_key_session, GasChargeSource, RecordsCrypto,
  gas_charge_id, PendingRequest, RequestRecordReader, not_run, unknown, RequestOutcome, ran,
  charge_record,
}
use ika_pre_alpha.Records.Lookup.{
  Charge, charges_of, first_held, or_ran, charge_ids, read_charges, charged, ran_or,
}

module _ {Failure : Type 0} (crypto : RecordsCrypto) (records : RequestRecordReader Failure)
    (key : Bytes) where
  -- The deposit of `key` was read, and holds no record of the charge.
  abbrev pub IsUncharged : Charge → Type 0
  IsUncharged (source, id) =
      (charge_id : Bytes) × (gas_charge_id crypto source id ≡ some charge_id)
      × (records.has_gas_charge key charge_id ≡ ok false)

  charge_ids-inversion :
      (source : GasChargeSource) (id : Bytes) (charges : List Charge) {ids : List Bytes}
      → charge_ids {Failure = Failure} crypto ((source, id) ∷ charges) ≡ ok ids
      → (charge_id : Bytes) × (rest : List Bytes) × (gas_charge_id crypto source id
          ≡ some charge_id)
        × (charge_ids {Failure = Failure} crypto charges ≡ ok rest)
        × (ids ≡ charge_id ∷ rest)
  unfolding charge_ids
  charge_ids-inversion source id charges h = elim (Option-cases (gas_charge_id crypto source id)) [
    | inl missing ↦ absurd (ground arith)
    | inr (charge_id, given) ↦ elim (Result-cases (charge_ids {Failure = Failure} crypto charges)) [
      | inr (e, failed) ↦ absurd (ground arith)
      | inl (rest, more) ↦ (charge_id, rest, given, more, ground arith)
    ]
  ]

  read_charges-inversion :
      (id : Bytes) (ids : List Bytes) {held : List Bool}
      → read_charges records key (id ∷ ids) ≡ ok held
      → (h : Bool) × (rest : List Bool) × (records.has_gas_charge key id ≡ ok h)
        × (read_charges records key ids ≡ ok rest)
        × (held ≡ h ∷ rest)
  unfolding read_charges
  read_charges-inversion id ids p = elim (Result-cases (records.has_gas_charge key id)) [
    | inr (e, failed) ↦ absurd (ground arith)
    | inl (h, given) ↦ elim (Result-cases (read_charges records key ids)) [
      | inr (e, failed) ↦ absurd (ground arith)
      | inl (rest, more) ↦ (h, rest, given, more, ground arith)
    ]
  ]

  All-IsUncharged :
      (charges : List Charge) (ids : List Bytes) (held : List Bool)
      → charge_ids {Failure = Failure} crypto charges ≡ ok ids
      → read_charges records key ids ≡ ok held
      → first_held charges held ≡ none
      → All IsUncharged charges
  unfolding first_held
  All-IsUncharged [] ids held c r f = tt
  All-IsUncharged ((source, id) ∷ charges) all_ids all_held c r f =
      let (charge_id, ids, given, more, e) = charge_ids-inversion source id charges c in
      let (h, held, read, reads, d) =
        read_charges-inversion charge_id ids {held = all_held}
          (ap (read_charges records key) (sym e) ∙ r) in
      let unheld : (if h then some source else first_held charges held) ≡ none =
        ap (first_held ((source, id) ∷ charges)) (sym d) ∙ f in
      elim (Bool-cases h) [
        | inl is_held ↦ absurd (ground arith)
        | inr is_free ↦ (
          (charge_id, given, read ∙ ap ok is_free),
          All-IsUncharged charges ids held more reads (ground arith),
        )
      ]

  first_held_of_uncharged :
      (charges : List Charge)
      → All IsUncharged charges
      → (ids : List Bytes) × (held : List Bool) × (charge_ids {Failure = Failure} crypto charges
          ≡ ok ids)
        × (read_charges records key ids ≡ ok held)
        × (first_held charges held ≡ none)
  unfolding charge_ids read_charges first_held
  first_held_of_uncharged [] a = ([], [], refl, refl, refl)
  first_held_of_uncharged ((source, id) ∷ charges) ((charge_id, given, read), a) =
      let (ids, held, more, reads, unheld) = first_held_of_uncharged charges a in
      (charge_id ∷ ids, false ∷ held, rw (given, more) refl, rw (read, reads) refl, unheld)

  -- The deposit of `key` was read, and holds a record of the charge.
  abbrev pub IsCharged : Charge → Type 0
  IsCharged (source, id) =
      (charge_id : Bytes) × (gas_charge_id crypto source id ≡ some charge_id)
      × (records.has_gas_charge key charge_id ≡ ok true)

  -- The first of the charges that is held is of the source.
  abbrev pub IsFirstCharged : GasChargeSource → List Charge → Type 0
  IsFirstCharged found [] = ⊥
  IsFirstCharged found ((source, id) ∷ charges) =
      ((found ≡ source) × IsCharged (source, id))
      ⊎ (IsUncharged (source, id) × IsFirstCharged found charges)

  IsFirstCharged-of_held :
      (charges : List Charge) (ids : List Bytes) (held : List Bool) (found : GasChargeSource)
      → charge_ids {Failure = Failure} crypto charges ≡ ok ids
      → read_charges records key ids ≡ ok held
      → first_held charges held ≡ some found
      → IsFirstCharged found charges
  unfolding first_held
  IsFirstCharged-of_held [] ids held found c r f = ground arith
  IsFirstCharged-of_held ((source, id) ∷ charges) all_ids all_held found c r f =
      let (charge_id, ids, given, more, e) = charge_ids-inversion source id charges c in
      let (h, held, read, reads, d) =
        read_charges-inversion charge_id ids {held = all_held}
          (ap (read_charges records key) (sym e) ∙ r) in
      let first : (if h then some source else first_held charges held) ≡ some found =
        ap (first_held ((source, id) ∷ charges)) (sym d) ∙ f in
      elim (Bool-cases h) [
        | inl is_held ↦ inl (ground arith, (charge_id, given, read ∙ ap ok is_held))
        | inr is_free ↦ inr (
          (charge_id, given, read ∙ ap ok is_free),
          IsFirstCharged-of_held charges ids held found more reads (ground arith),
        )
      ]

module _ {Failure : Type 0} (crypto : RecordsCrypto) (pending : PendingRequest)
    (records : RequestRecordReader Failure) where
  -- No charge of the request, of any kind or of the kinds `more`, is held.
  abbrev pub IsUnchargedWith : List Charge → Type 0
  IsUnchargedWith more = All (IsUncharged crypto records pending.transport_key) (
      (refused_request, pending.session_identifier)
      ∷ (rejected_session, pending.session_identifier)
      ∷ (moved_network_key_session, pending.session_identifier)
      ∷ more)

  pub charged_iff :
      (more : List Charge) → (charged crypto pending records more ≡ ok none) ↔ IsUnchargedWith more
  unfolding charged charges_of
  charged_iff more =
      let charges = charges_of pending.session_identifier more in
      let key = pending.transport_key in
      (
        λ h. elim (Result-cases (charge_ids {Failure = Failure} crypto charges)) [
          | inr (e, failed) ↦ absurd (ground arith)
          | inl (ids, given) ↦ elim (Result-cases (read_charges records key ids)) [
            | inr (e, failed) ↦ absurd (ground arith)
            | inl (held, reads) ↦
                All-IsUncharged crypto records key charges ids held given reads (ground arith)
          ]
        ],
        λ a.
            let (ids, held, given, reads, unheld) =
              first_held_of_uncharged crypto records key charges a in
            rw (given, reads, unheld) refl,
      )

  pub ran_or_not_run_iff :
      (more : List Charge)
      → (ran_or crypto pending records not_run more ≡ ok not_run) ↔ IsUnchargedWith more
  unfolding ran_or or_ran
  ran_or_not_run_iff more = (
    λ h. elim (Result-cases (charged crypto pending records more)) [
      | inr (e, failed) ↦ absurd (ground arith)
      | inl (found, given) ↦ elim (Option-cases found) [
        | inl nothing ↦ (charged_iff more).0 (given ∙ ap ok nothing)
        | inr (source, something) ↦ absurd (ground arith)
      ]
    ],
    λ a. rw ((charged_iff more).1 a) refl,
  )

  pub ran_or_unknown :
      (more : List Charge) → ◌≢◌ (ran_or crypto pending records unknown more) (ok not_run)
  unfolding ran_or or_ran
  ran_or_unknown more h = ground arith

  -- A charge of the request, of any kind or of the kinds `more`, is held, and the first is of the source.
  abbrev pub IsChargedWith : GasChargeSource → List Charge → Type 0
  IsChargedWith found more = IsFirstCharged crypto records pending.transport_key found (
      (refused_request, pending.session_identifier)
      ∷ (rejected_session, pending.session_identifier)
      ∷ (moved_network_key_session, pending.session_identifier)
      ∷ more)

  -- The first charge held, and otherwise what the request's other traces say.
  abbrev pub IsRanOr : RequestOutcome → List Charge → RequestOutcome → Type 0
  IsRanOr otherwise more outcome =
      ((outcome ≡ otherwise) × IsUnchargedWith more)
      ⊎ ((source : GasChargeSource) × (outcome ≡ ran (charge_record source))
          × IsChargedWith source more)

  pub IsRanOr-of_ran_or :
      (otherwise outcome : RequestOutcome) (more : List Charge)
      → ran_or crypto pending records otherwise more ≡ ok outcome
      → IsRanOr otherwise more outcome
  unfolding ran_or or_ran charged charges_of
  IsRanOr-of_ran_or otherwise outcome more h =
      let charges = charges_of pending.session_identifier more in
      let key = pending.transport_key in
      elim (Result-cases (charge_ids {Failure = Failure} crypto charges)) [
        | inr (e, failed) ↦ absurd (ground arith)
        | inl (ids, given) ↦ elim (Result-cases (read_charges records key ids)) [
          | inr (e, failed) ↦ absurd (ground arith)
          | inl (held, reads) ↦ elim (Option-cases (first_held charges held)) [
            | inl nothing ↦ inl (
              ground arith,
              All-IsUncharged crypto records key charges ids held given reads nothing,
            )
            | inr (source, first) ↦ inr (
              source,
              ground arith,
              IsFirstCharged-of_held crypto records key charges ids held source given reads first,
            )
          ]
        ]
      ]
