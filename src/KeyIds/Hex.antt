-- ===== src/KeyIds/Hex.antt =====
-- Key ids and their hex.
use Prim.Native.Nat.{zero, suc}
use mathlib.Core.Path.{ap₂, subst}
use ika_pre_alpha.Prelude.{
  ℕ, ◌+◌, ◌*◌, ◌/◌, ◌%◌, ◌<◌, ◌≡◌, refl, ap, Bool, true, false, ◌&&◌, [], ◌∷◌, leb, ◌==◌, ==_iff,
  if◌then◌else◌, length, all, All, map, ok, arith, Bool-cases, inl, inr,
}
use ika_pre_alpha.Prelude.Bytes.{Bytes, IsByte}
use ika_pre_alpha.KeyIds.{
  Text, without_prefix, is_hex_digit, digit_value, parse_pairs, network_key_id_from_hex, hex_digit,
  hex_digits, network_key_id_to_hex,
}

-- The digit in lower case.
abbrev pub lower_digit : ℕ → ℕ
lower_digit c = if leb 65 c && leb c 70 then c + 32 else c

value_of_digit : (n : ℕ) → n < 16 → digit_value (hex_digit n) ≡ n
unfolding digit_value hex_digit
value_of_digit n h = ground arith

hex_digit-is_hex : (n : ℕ) → n < 16 → is_hex_digit (hex_digit n) ≡ true
unfolding is_hex_digit hex_digit
hex_digit-is_hex n h = ground arith

digit_of_value :
    (c : ℕ)
    → is_hex_digit c ≡ true
    → (digit_value c < 16) × (hex_digit (digit_value c) ≡ lower_digit c)
unfolding is_hex_digit hex_digit digit_value
digit_of_value c h = (ground arith, ground arith)

and_true : (a b : Bool) → (a && b) ≡ true → (a ≡ true) × (b ≡ true)
and_true true true h = (refl, refl)
and_true true false h = cc
and_true false b h = cc

parse_pairs-hex_digits : (id : Bytes) → All IsByte id → parse_pairs (hex_digits id) ≡ id
unfolding parse_pairs hex_digits
parse_pairs-hex_digits [] h = refl
parse_pairs-hex_digits (byte ∷ id) (p, h) =
    let byte_back : 16 * digit_value (hex_digit (byte / 16)) + digit_value (hex_digit (byte % 16))
        ≡ byte =
      omega (
        arith,
        value_of_digit (byte / 16) (omega arith),
        value_of_digit (byte % 16) (omega arith),
      ) in
    ap₂ ◌∷◌ byte_back (parse_pairs-hex_digits id h)

hex_digits-is_hex : (id : Bytes) → All IsByte id → all is_hex_digit (hex_digits id) ≡ true
unfolding hex_digits
hex_digits-is_hex [] h = refl
hex_digits-is_hex (byte ∷ id) (p, h) = ground (
  arith,
  hex_digit-is_hex (byte / 16) (omega arith),
  hex_digit-is_hex (byte % 16) (omega arith),
  hex_digits-is_hex id h,
)

length-hex_digits : (id : Bytes) → length (hex_digits id) ≡ 2 * length id
unfolding hex_digits
length-hex_digits [] = refl
length-hex_digits (byte ∷ id) = omega (arith, length-hex_digits id)

-- The hex printed for a key id of 32 bytes reads back as the key id.
pub network_key_id_from_hex-to_hex :
    (id : Bytes)
    → length id ≡ 32
    → All IsByte id
    → network_key_id_from_hex (network_key_id_to_hex id) ≡ ok id
unfolding network_key_id_from_hex network_key_id_to_hex without_prefix
network_key_id_from_hex-to_hex id h a =
    rw (hex_digits-is_hex id a, length-hex_digits id, h, parse_pairs-hex_digits id a) refl

pairs_back :
    (half : ℕ) (digits : Text)
    → length digits ≡ half * 2
    → all is_hex_digit digits ≡ true
    → (length (parse_pairs digits) ≡ half)
      × All IsByte (parse_pairs digits)
      × (hex_digits (parse_pairs digits) ≡ map lower_digit digits)
unfolding parse_pairs hex_digits
pairs_back zero [] h a = (refl, tt, refl)
pairs_back zero (c ∷ digits) h a = absurd (omega arith)
pairs_back (suc half) [] h a = absurd (omega arith)
pairs_back (suc half) (c ∷ []) h a = absurd (omega arith)
pairs_back (suc half) (c ∷ d ∷ digits) h a =
    let (lengths, bytes, texts) = pairs_back half digits (omega arith) (ground arith) in
    let (low_c, back_c) = digit_of_value c (ground arith) in
    let (low_d, back_d) = digit_of_value d (ground arith) in
    let high : (16 * digit_value c + digit_value d) / 16 ≡ digit_value c = omega arith in
    let low : (16 * digit_value c + digit_value d) % 16 ≡ digit_value d = omega arith in
    (ap suc lengths, (omega arith, bytes), ap₂ ◌∷◌ (rw high back_c) (ap₂ ◌∷◌ (rw low back_d) texts))

-- A text that reads as a key id gives 32 bytes, whose hex is the text's digits in lower case after
-- `0x`, whether or not the text has that prefix.
pub network_key_id_to_hex-from_hex :
    (hex : Text) (id : Bytes)
    → network_key_id_from_hex hex ≡ ok id
    → (length id ≡ 32)
      × All IsByte id
      × (network_key_id_to_hex id ≡ 48 ∷ 120 ∷ map lower_digit (without_prefix hex))
unfolding network_key_id_from_hex network_key_id_to_hex
network_key_id_to_hex-from_hex hex id h =
    let digits = without_prefix hex in
    elim (Bool-cases (length digits == 64 && all is_hex_digit digits)) [
      | inr bad ↦ absurd (ground arith)
      | inl good ↦
          let e : parse_pairs digits ≡ id = ground arith in
          let (is_long, is_hex) = and_true (length digits == 64) (all is_hex_digit digits) good in
          let (lengths, bytes, texts) =
            pairs_back 32 digits ((==_iff (length digits) 64).0 is_long) is_hex in
          subst
            (λ (x : Bytes).
              (length x ≡ 32)
              × All IsByte x
              × (48 ∷ 120 ∷ hex_digits x ≡ 48 ∷ 120 ∷ map lower_digit digits))
            e (lengths, bytes, ap (λ (text : Text). 48 ∷ 120 ∷ text) texts)
    ]
