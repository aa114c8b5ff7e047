-- ===== src/KeyIds/Tests.antt =====
-- Key ids and their hex, and the theorems about them at concrete inputs.
use ika_pre_alpha.Prelude.{
  ℕ, zero, suc, ◌≡◌, ◌↔◌, ◌⊎◌, refl, none, some, [], ◌∷◌, map, length, All, ok, err, arith,
}
use ika_pre_alpha.Prelude.Bytes.{Bytes, IsByte}
use ika_pre_alpha.KeyIds.{
  Text, no_network_key, object_id_hex, without_prefix, is_hex_digit, digit_value, parse_pairs,
  network_key_id_from_hex, network_key_id_to_hex, bytes_from_hex, network_key_id_from_bytes,
  NetworkKeysByAge, latest_network_key_id, latest_by_age, get_network_keys_by_age, key_ids_of,
  latest_network_key_id_of,
}
use ika_pre_alpha.KeyIds.Hex.{
  lower_digit, network_key_id_from_hex-to_hex, network_key_id_to_hex-from_hex,
}
use ika_pre_alpha.KeyIds.Latest.{IsKeyId, IsLastKey, latest_network_key_id_iff}

unfoldable repeated : ℕ → ℕ → Bytes
repeated byte zero = []
repeated byte (suc n) = byte ∷ repeated byte n

repeated-IsByte : (byte n : ℕ) → IsByte byte → All IsByte (repeated byte n)
unfolding repeated
repeated-IsByte byte zero h = tt
repeated-IsByte byte (suc n) h = (h, repeated-IsByte byte n h)

abbrev upper_hex : Text
upper_hex = repeated b'A' 64

two_digits : bytes_from_hex (b'f' ∷ b'0' ∷ []) ≡ ok (240 ∷ [])
unfolding bytes_from_hex parse_pairs is_hex_digit digit_value
two_digits = refl

odd_digits : bytes_from_hex (b'f' ∷ []) ≡ err (object_id_hex (b'f' ∷ []))
unfolding bytes_from_hex parse_pairs is_hex_digit digit_value
odd_digits = refl

upper_case : network_key_id_from_hex upper_hex ≡ ok (repeated 170 32)
unfolding network_key_id_from_hex without_prefix parse_pairs is_hex_digit digit_value repeated
upper_case = refl

abbrev answer : NetworkKeysByAge
answer = record {
  network_key_ids = some (repeated 1 32 ∷ repeated 2 32 ∷ []);
  latest_usable_network_key_id = some [];
}

newest : latest_network_key_id answer ≡ ok (repeated 2 32)
unfolding latest_network_key_id latest_by_age get_network_keys_by_age key_ids_of
    network_key_id_from_bytes latest_network_key_id_of repeated
newest = refl

no_key :
    latest_network_key_id (record { network_key_ids = none; latest_usable_network_key_id = none })
    ≡ err no_network_key
unfolding latest_network_key_id latest_by_age get_network_keys_by_age key_ids_of
    latest_network_key_id_of
no_key = refl

network_key_id_from_hex-to_hex_example :
    network_key_id_from_hex (network_key_id_to_hex (repeated 200 32)) ≡ ok (repeated 200 32)
unfolding repeated
network_key_id_from_hex-to_hex_example =
    network_key_id_from_hex-to_hex (repeated 200 32) refl (repeated-IsByte 200 32 (omega arith))

network_key_id_to_hex-from_hex_example :
    (length (repeated 170 32) ≡ 32)
    × All IsByte (repeated 170 32)
    × (network_key_id_to_hex (repeated 170 32)
        ≡ 48 ∷ 120 ∷ map lower_digit (without_prefix upper_hex))
network_key_id_to_hex-from_hex_example =
    network_key_id_to_hex-from_hex upper_hex (repeated 170 32) upper_case

latest_network_key_id_iff_example : (latest_network_key_id answer ≡ ok (repeated 2 32)) ↔ (
    ((answer.latest_usable_network_key_id ≡ some (repeated 2 32)) × IsKeyId (repeated 2 32))
    ⊎ (((answer.latest_usable_network_key_id ≡ none)
          ⊎ (answer.latest_usable_network_key_id ≡ some []))
        × IsLastKey answer (repeated 2 32)))
latest_network_key_id_iff_example = latest_network_key_id_iff answer (repeated 2 32)
