-- ===== src/Networks/Refusal.antt =====
-- Which network key an attestation may name.
use ika_pre_alpha.Prelude.{
  ◌≡◌, refl, sym, ap, ◌∙◌, ◌↔◌, inl, inr, Bool, true, false, Option, none, some, List, [], ◌∷◌, any,
  find?, ok, Result-cases, Option-cases, Bool-cases, arith,
}
use mathlib.Core.List.{Memᴰ}
use ika_pre_alpha.Prelude.Bytes.{Bytes, same_bytes, same_bytes_iff, among, among_iff}
use ika_pre_alpha.Networks.{
  DeployedNetworkName, DeployedNetwork, DeployedNetworkKey, IkaNetwork, deployed, custom,
  TrustedNetworkKeys, is_empty, listed_network_key_in, attestation_network_key_refusal_in,
}

-- The list holds the entry, and it is of the key.
pub record IsEntry (table : DeployedNetwork) (key : Bytes) (entry : DeployedNetworkKey)
    : Type 0 where
  pub held : Memᴰ entry table.network_keys
  pub of_key : entry.noa_public_key ≡ key

module _ {ℓ} {A : Type ℓ} (p : A → Bool) where
  find?-some : (xs : List A) (x : A) → find? p xs ≡ some x → Memᴰ x xs × (p x ≡ true)
  find?-some [] x h = absurd (ground arith)
  find?-some (y ∷ ys) x h = elim (Bool-cases (p y)) [
    | inl e ↦ let found : y ≡ x = ground arith in (Memᴰ.head (sym found), ap p (sym found) ∙ e)
    | inr e ↦ let (rest, test) = find?-some ys x (ground arith) in (Memᴰ.tail rest, test)
  ]

  pub any-some : (xs : List A) → any p xs ≡ true → (x : A) × Memᴰ x xs × (p x ≡ true)
  any-some [] h = absurd (ground arith)
  any-some (y ∷ ys) h = elim (Bool-cases (p y)) [
    | inl e ↦ (y, Memᴰ.head refl, e)
    | inr e ↦ let (x, rest, test) = any-some ys (ground arith) in (x, Memᴰ.tail rest, test)
  ]

  find?-found : (xs : List A) (x : A) → Memᴰ x xs → p x ≡ true → (y : A) × (find? p xs ≡ some y)
  find?-found [] x m h = elim m [ ]
  find?-found (y ∷ ys) x (Memᴰ.head e) h = (y, ground arith)
  find?-found (y ∷ ys) x (Memᴰ.tail m) h =
      let (z, found) = find?-found ys x m h in
      elim (Bool-cases (p y)) [ inl e ↦ (y, ground arith) | inr e ↦ (z, ground arith) ]

module _ (table : DeployedNetwork) (name : DeployedNetworkName) where
  pub IsEntry-of_listed :
      (key : Bytes) (entry : DeployedNetworkKey)
      → listed_network_key_in table name key ≡ ok entry
      → IsEntry table key entry
  unfolding listed_network_key_in
  IsEntry-of_listed key entry h =
      let found : find? (λ e. same_bytes e.noa_public_key key) table.network_keys ≡ some entry =
        elim (Option-cases (find? (λ e. same_bytes e.noa_public_key key) table.network_keys)) [
          | inl e ↦ absurd (ground arith)
          | inr (x, e) ↦ ground arith
        ] in
      let (held, same) =
        find?-some (λ e. same_bytes e.noa_public_key key) table.network_keys entry found in
      record { held = held; of_key = (same_bytes_iff entry.noa_public_key key).0 same }

  not_empty :
      (entry : DeployedNetworkKey) (keys : List DeployedNetworkKey)
      → Memᴰ entry keys
      → is_empty keys ≡ false
  not_empty entry [] h = elim h [ ]
  not_empty entry (x ∷ xs) h = refl

  pub listed-of_IsEntry :
      (key : Bytes) (entry : DeployedNetworkKey)
      → IsEntry table key entry
      → (first : DeployedNetworkKey) × (listed_network_key_in table name key ≡ ok first)
  unfolding listed_network_key_in
  listed-of_IsEntry key entry h =
      let (first, found) =
        find?-found (λ e. same_bytes e.noa_public_key key) table.network_keys entry h.held
          ((same_bytes_iff entry.noa_public_key key).1 h.of_key) in
      let filled = not_empty entry table.network_keys h.held in (first, ground arith)

-- What the three checks of an attestation's network key ask for.
pub record IsNamedKey (tables : DeployedNetworkName → DeployedNetwork) (named expected : Bytes)
    (network : IkaNetwork) (trusted : Option TrustedNetworkKeys) : Type 0 where
  pub trusted_now : (keys : TrustedNetworkKeys) → trusted ≡ some keys → Memᴰ named keys.public_keys
  pub is_expected : named ≡ expected
  pub listed :
      (name : DeployedNetworkName)
      → network ≡ deployed name
      → (entry : DeployedNetworkKey) × IsEntry (tables name) expected entry

module _ (tables : DeployedNetworkName → DeployedNetwork) (named expected : Bytes) where
  IsNamedKey-of_refusal :
      (network : IkaNetwork) (trusted : Option TrustedNetworkKeys)
      → attestation_network_key_refusal_in tables named expected network trusted ≡ none
      → IsNamedKey tables named expected network trusted
  unfolding attestation_network_key_refusal_in
  IsNamedKey-of_refusal network trusted h = record {
    trusted_now = λ keys e.
        (among_iff named keys.public_keys).0 (elim (Bool-cases (among named keys.public_keys)) [
          | inl t ↦ t
          | inr f ↦ absurd (ground arith)
        ]);
    is_expected = (same_bytes_iff named expected).0 (ground arith);
    listed = λ name e. elim (Result-cases (listed_network_key_in (tables name) name expected)) [
      | inl (entry, found) ↦ (entry, IsEntry-of_listed (tables name) name expected entry found)
      | inr (error, failed) ↦ absurd (ground arith)
    ];
  }

  refusal-of_IsNamedKey :
      (network : IkaNetwork) (trusted : Option TrustedNetworkKeys)
      → IsNamedKey tables named expected network trusted
      → attestation_network_key_refusal_in tables named expected network trusted ≡ none
  unfolding attestation_network_key_refusal_in
  refusal-of_IsNamedKey (custom keys) none h =
      ground (arith, (same_bytes_iff named expected).1 h.is_expected)
  refusal-of_IsNamedKey (custom keys) (some trusted) h =
      let same = (same_bytes_iff named expected).1 h.is_expected in
      ground (arith, (among_iff named trusted.public_keys).1 (h.trusted_now trusted refl))
  refusal-of_IsNamedKey (deployed name) none h =
      let same = (same_bytes_iff named expected).1 h.is_expected in
      let (entry, is_entry) = h.listed name refl in
      let (first, found) = listed-of_IsEntry (tables name) name expected entry is_entry in
      ground arith
  refusal-of_IsNamedKey (deployed name) (some trusted) h =
      let same = (same_bytes_iff named expected).1 h.is_expected in
      let (entry, is_entry) = h.listed name refl in
      let (first, found) = listed-of_IsEntry (tables name) name expected entry is_entry in
      ground (arith, (among_iff named trusted.public_keys).1 (h.trusted_now trusted refl))

  -- An attestation's network key is refused for no reason exactly when it is among the trusted keys,
  -- where the caller gives them, it is the expected key, and, on a deployed network, the network's
  -- list holds an entry of the expected key.
  pub attestation_network_key_refusal_in-none_iff :
      (network : IkaNetwork) (trusted : Option TrustedNetworkKeys)
      → (attestation_network_key_refusal_in tables named expected network trusted ≡ none)
        ↔ IsNamedKey tables named expected network trusted
  attestation_network_key_refusal_in-none_iff network trusted =
      (IsNamedKey-of_refusal network trusted, refusal-of_IsNamedKey network trusted)
