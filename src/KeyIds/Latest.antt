-- ===== src/KeyIds/Latest.antt =====
-- The choice of the latest network key.
use mathlib.Core.Path.{ap₂}
use ika_pre_alpha.Prelude.{
  ◌≡◌, ◌↔◌, ◌⊎◌, refl, sym, ap, ◌∙◌, none, some, List, [], ◌∷◌, length, All, ok, arith,
  Option-cases, Result-cases, inl, inr,
}
use ika_pre_alpha.Prelude.Bytes.{Bytes}
use ika_pre_alpha.KeyIds.{
  network_key_id_from_bytes, last_of, latest_network_key_id_of, NetworkKeysByAge, key_ids_of,
  or_empty, get_network_keys_by_age, latest_by_age, latest_network_key_id,
}

abbrev pub IsKeyId : Bytes → Type 0
IsKeyId bytes = length bytes ≡ 32

from_bytes-inversion :
    (bytes id : Bytes) → network_key_id_from_bytes bytes ≡ ok id → IsKeyId bytes × (id ≡ bytes)
unfolding network_key_id_from_bytes
from_bytes-inversion bytes id h = (ground arith, ground arith)

from_bytes-IsKeyId : (bytes : Bytes) → IsKeyId bytes → network_key_id_from_bytes bytes ≡ ok bytes
unfolding network_key_id_from_bytes
from_bytes-IsKeyId bytes h = ground arith

key_ids_of-inversion :
    (ids out : List Bytes) → key_ids_of ids ≡ ok out → All IsKeyId ids × (out ≡ ids)
unfolding key_ids_of
key_ids_of-inversion [] out h = (tt, ground arith)
key_ids_of-inversion (bytes ∷ ids) out h = elim (Result-cases (network_key_id_from_bytes bytes)) [
  | inr (e, failed) ↦ absurd (ground arith)
  | inl (id, good) ↦ elim (Result-cases (key_ids_of ids)) [
    | inr (e, failed) ↦ absurd (ground arith)
    | inl (rest, more) ↦
        let (is_id, same) = from_bytes-inversion bytes id good in
        let (are_ids, sames) = key_ids_of-inversion ids rest more in
        let e : id ∷ rest ≡ out = ground arith in ((is_id, are_ids), sym e ∙ ap₂ ◌∷◌ same sames)
  ]
]

key_ids_of-All : (ids : List Bytes) → All IsKeyId ids → key_ids_of ids ≡ ok ids
unfolding key_ids_of
key_ids_of-All [] a = refl
key_ids_of-All (bytes ∷ ids) (p, a) = rw (from_bytes-IsKeyId bytes p, key_ids_of-All ids a) refl

-- The last of the keys by age, all of them key ids.
abbrev pub IsLastKey : NetworkKeysByAge → Bytes → Type 0
IsLastKey response id =
    All IsKeyId (or_empty response.network_key_ids)
    × (last_of (or_empty response.network_key_ids) ≡ some id)

latest_by_age_iff :
    (response : NetworkKeysByAge) (id : Bytes)
    → (latest_by_age response ≡ ok id) ↔ IsLastKey response id
unfolding latest_by_age get_network_keys_by_age latest_network_key_id_of
latest_by_age_iff response id =
    let ids = or_empty response.network_key_ids in
    (
      λ h. elim (Result-cases (key_ids_of ids)) [
        | inr (e, failed) ↦ absurd (ground arith)
        | inl (out, good) ↦ elim (Option-cases (last_of out)) [
          | inl nothing ↦ absurd (ground arith)
          | inr (latest, found) ↦
              let (are_ids, same) = key_ids_of-inversion ids out good in
              let e : latest ≡ id = ground arith in
              (are_ids, sym (ap last_of same) ∙ found ∙ ap some e)
        ]
      ],
      λ (are_ids, found). rw (key_ids_of-All ids are_ids, found, latest_network_key_id_of) refl,
    )

sent_key :
    (response : NetworkKeysByAge) (id : Bytes)
    → response.latest_usable_network_key_id ≡ some id
    → IsKeyId id
    → latest_network_key_id response ≡ ok id
unfolding latest_network_key_id
sent_key response [] sent is_id = absurd (omega arith)
sent_key response (byte ∷ bytes) sent is_id =
    rw (sent, latest_network_key_id) (from_bytes-IsKeyId (byte ∷ bytes) is_id)

-- The latest network key is the one that the validator sent as the latest usable, when it sent one that
-- is not empty, and it must be a key id. Otherwise it is the last of the keys by age, each of which
-- must be a key id, and there is none when there are no keys.
pub latest_network_key_id_iff :
    (response : NetworkKeysByAge) (id : Bytes)
    → (latest_network_key_id response ≡ ok id) ↔ (
        ((response.latest_usable_network_key_id ≡ some id) × IsKeyId id)
        ⊎ (((response.latest_usable_network_key_id ≡ none)
              ⊎ (response.latest_usable_network_key_id ≡ some []))
            × IsLastKey response id))
unfolding latest_network_key_id
latest_network_key_id_iff response id = (
  λ h. elim (Option-cases response.latest_usable_network_key_id) [
    | inl absent ↦ inr (inl absent, (latest_by_age_iff response id).0 (ground arith))
    | inr ([], sent) ↦ inr (inr sent, (latest_by_age_iff response id).0 (ground arith))
    | inr (byte ∷ bytes, sent) ↦
        let (is_id, same) = from_bytes-inversion (byte ∷ bytes) id (ground arith) in
        inl (sent ∙ ap some (sym same), ap length same ∙ is_id)
  ],
  λ shown. elim shown [
    | inl (sent, is_id) ↦ sent_key response id sent is_id
    | inr (inl absent, last) ↦ rw absent ((latest_by_age_iff response id).1 last)
    | inr (inr empty, last) ↦ rw empty ((latest_by_age_iff response id).1 last)
  ],
)
