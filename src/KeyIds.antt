-- ===== src/KeyIds.antt =====
-- sdk/core/src/grpc/network-key-id.ts, and of sdk/core/src/grpc/dwallet-client.ts the reading of hex
-- and the choice of the latest network key from a validator's answer. Texts are lists of character
-- codes.
pub mod Hex
pub mod Latest
mod Tests
use ika_pre_alpha.Prelude.{
  ℕ, ◌+◌, ◌-◌, ◌*◌, ◌/◌, ◌%◌, Bool, true, false, ◌&&◌, ◌||◌, Option, none, some, List, [], ◌∷◌,
  ◌==◌, ltb, leb, if◌then◌else◌, length, all, Result, ok, err, guard, ◌>>=◌, ◌>>◌,
}
use ika_pre_alpha.Prelude.Bytes.{Bytes}

abbrev pub Text : Type 0
Text = List ℕ

pub data KeyIdError : Type 0 where
  key_id_length : ℕ → KeyIdError
  key_id_hex : Text → KeyIdError
  object_id_hex : Text → KeyIdError
  no_network_key : KeyIdError

abbrev pub network_key_id_length : ℕ
network_key_id_length = 32

pub network_key_id_from_bytes : Bytes → Result KeyIdError Bytes
network_key_id_from_bytes bytes = do
  guard (length bytes == network_key_id_length) (key_id_length (length bytes))
  ok bytes

-- `hex.startsWith('0x') ? hex.slice(2) : hex`
pub without_prefix : Text → Text
without_prefix [] = []
without_prefix (a ∷ []) = a ∷ []
without_prefix (a ∷ b ∷ rest) = if a == 48 && b == 120 then rest else a ∷ b ∷ rest

abbrev between : ℕ → ℕ → ℕ → Bool
between low high c = leb low c && leb c high

-- `[0-9a-fA-F]`
pub is_hex_digit : ℕ → Bool
is_hex_digit c = between 48 57 c || (between 97 102 c || between 65 70 c)

-- The digit that `parseInt(…, 16)` reads.
pub digit_value : ℕ → ℕ
digit_value c = if between 48 57 c then c - 48 else if between 97 102 c then c - 87 else c - 55

pub parse_pairs : Text → Bytes
unfolding digit_value
parse_pairs [] = []
parse_pairs (a ∷ []) = []
parse_pairs (a ∷ b ∷ rest) = (16 * digit_value a + digit_value b) ∷ parse_pairs rest

pub network_key_id_from_hex : Text → Result KeyIdError Bytes
unfolding without_prefix parse_pairs is_hex_digit
network_key_id_from_hex hex = do
  let digits = without_prefix hex
  guard (length digits == network_key_id_length * 2 && all is_hex_digit digits) (key_id_hex hex)
  ok (parse_pairs digits)

-- A digit of `byte.toString(16).padStart(2, '0')`.
pub hex_digit : ℕ → ℕ
hex_digit n = if ltb n 10 then 48 + n else 87 + n

pub hex_digits : Bytes → Text
unfolding hex_digit
hex_digits [] = []
hex_digits (byte ∷ bytes) = hex_digit (byte / 16) ∷ hex_digit (byte % 16) ∷ hex_digits bytes

pub network_key_id_to_hex : Bytes → Text
unfolding hex_digits
network_key_id_to_hex id = 48 ∷ 120 ∷ hex_digits id

-- The bytes that an object id spells.
pub bytes_from_hex : Text → Result KeyIdError Bytes
unfolding parse_pairs is_hex_digit
bytes_from_hex digits = do
  guard (length digits % 2 == 0 && all is_hex_digit digits) (object_id_hex digits)
  ok (parse_pairs digits)

abbrev pub last_of : List Bytes → Option Bytes
last_of [] = none
last_of (id ∷ []) = some id
last_of (id ∷ next ∷ ids) = last_of (next ∷ ids)

pub latest_network_key_id_of : List Bytes → Result KeyIdError Bytes
latest_network_key_id_of network_keys_by_age = elim (last_of network_keys_by_age) [
  | none ↦ err no_network_key
  | some latest ↦ ok latest
]

-- A validator's answer to `GetNetworkKeysByAge`.
pub record NetworkKeysByAge : Type 0 where
  pub network_key_ids : Option (List Bytes)
  pub latest_usable_network_key_id : Option Bytes

pub key_ids_of : List Bytes → Result KeyIdError (List Bytes)
unfolding network_key_id_from_bytes
key_ids_of [] = ok []
key_ids_of (bytes ∷ rest) = do
  id ← network_key_id_from_bytes bytes
  ids ← key_ids_of rest
  ok (id ∷ ids)

abbrev pub or_empty : Option (List Bytes) → List Bytes
or_empty none = []
or_empty (some ids) = ids

pub get_network_keys_by_age : NetworkKeysByAge → Result KeyIdError (List Bytes)
unfolding key_ids_of
get_network_keys_by_age response = key_ids_of (or_empty response.network_key_ids)

pub latest_by_age : NetworkKeysByAge → Result KeyIdError Bytes
unfolding get_network_keys_by_age latest_network_key_id_of
latest_by_age response = do ids ← get_network_keys_by_age response; latest_network_key_id_of ids

pub latest_network_key_id : NetworkKeysByAge → Result KeyIdError Bytes
unfolding latest_by_age network_key_id_from_bytes
latest_network_key_id response = elim response.latest_usable_network_key_id [
  | none ↦ latest_by_age response
  | some [] ↦ latest_by_age response
  | some (byte ∷ bytes) ↦ network_key_id_from_bytes (byte ∷ bytes)
]
