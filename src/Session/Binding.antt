-- ===== src/Session/Binding.antt =====
-- What a session identifier binds.
use mathlib.Core.Path.{ap₂}
use mathlib.Core.List.{reverse, reverse-reverse}
use ika_pre_alpha.Prelude.{
  ℕ, ◌%◌, ◌^◌, ◌<◌, ◌≡◌, refl, sym, ap, ◌∙◌, [], ◌∷◌, ◌++◌, length, take, drop, arith, get_or,
}
use ika_pre_alpha.Prelude.Bytes.{Bytes, to_le, from_le, from_le-to_le}
use ika_pre_alpha.Prelude.Int.{pos}
use ika_pre_alpha.Session.{
  GrpcRequestSignerScheme, ed25519, secp256k1, secp256r1, signer_scheme_byte, set_big_uint_64,
  session_bytes, grpc_session_identifier,
}

-- The length of a key of the scheme.
abbrev pub key_length : GrpcRequestSignerScheme → ℕ
key_length ed25519 = 32
key_length secp256k1 = 33
key_length secp256r1 = 33

scheme_injective :
    (s t : GrpcRequestSignerScheme) → signer_scheme_byte s ≡ signer_scheme_byte t → s ≡ t
scheme_injective ed25519 ed25519 e = refl
scheme_injective secp256k1 secp256k1 e = refl
scheme_injective secp256r1 secp256r1 e = refl
scheme_injective ed25519 secp256k1 e = absurd (omega arith)
scheme_injective ed25519 secp256r1 e = absurd (omega arith)
scheme_injective secp256k1 ed25519 e = absurd (omega arith)
scheme_injective secp256k1 secp256r1 e = absurd (omega arith)
scheme_injective secp256r1 ed25519 e = absurd (omega arith)
scheme_injective secp256r1 secp256k1 e = absurd (omega arith)

epoch_injective :
    (a b : ℕ) → a < 2 ^ 64 → b < 2 ^ 64 → set_big_uint_64 (pos a) ≡ set_big_uint_64 (pos b) → a ≡ b
epoch_injective a b p q e =
    let low : to_le 8 (a % 2 ^ 64) ≡ to_le 8 (b % 2 ^ 64) =
      sym (reverse-reverse (to_le 8 (a % 2 ^ 64)))
      ∙ ap reverse e
      ∙ reverse-reverse (to_le 8 (b % 2 ^ 64)) in
    let same : from_le (to_le 8 (a % 2 ^ 64)) ≡ from_le (to_le 8 (b % 2 ^ 64)) = ap from_le low in
    omega (
      arith,
      from_le-to_le 8 (a % 2 ^ 64) (omega arith),
      from_le-to_le 8 (b % 2 ^ 64) (omega arith),
    )

-- Lists of one length, each before another list.
append_injective :
    (xs ys us vs : Bytes) → length xs ≡ length us → xs ++ ys ≡ us ++ vs → (xs ≡ us) × (ys ≡ vs)
append_injective [] ys [] vs h e = (refl, e)
append_injective [] ys (u ∷ us) vs h e = absurd (omega arith)
append_injective (x ∷ xs) ys [] vs h e = absurd (omega arith)
append_injective (x ∷ xs) ys (u ∷ us) vs h e =
    let (front, back) = append_injective xs ys us vs (omega arith) (ap (drop 1) e) in
    (ap₂ ◌∷◌ (cons-injective e).0 front, back)
  where
    cons-injective : {x y : ℕ} {xs ys : Bytes} → x ∷ xs ≡ y ∷ ys → (x ≡ y) × (xs ≡ ys)
    cons-injective e = (cc, cc)

-- The bytes that are hashed name one epoch, scheme, key and preimage.
session_bytes_injective :
    (a b : ℕ) (s t : GrpcRequestSignerScheme) (xs us ys vs : Bytes)
    → a < 2 ^ 64
    → b < 2 ^ 64
    → length xs ≡ key_length s
    → length us ≡ key_length t
    → session_bytes (pos a) s xs ys ≡ session_bytes (pos b) t us vs
    → (a ≡ b) × (s ≡ t) × (xs ≡ us) × (ys ≡ vs)
unfolding session_bytes
session_bytes_injective a b s t xs us ys vs p q h k e =
    let schemes : s ≡ t = scheme_injective s t (ap (λ bytes. get_or bytes 20 0) e) in
    let (keys, rests) =
      append_injective xs ys us vs (h ∙ ap key_length schemes ∙ sym k) (ap (drop 21) e) in
    (epoch_injective a b p q (ap (λ bytes. take 8 (drop 12 bytes)) e), schemes, keys, rests)

-- Two requests that open one session name the same epoch, signer scheme, signer key and preimage, when
-- their epochs are 64-bit, their keys have the lengths of their schemes, and keccak256 does not take
-- two different byte arrays that they hash to one digest.
pub grpc_session_identifier_injective :
    (keccak_256 : Bytes → Bytes) (a b : ℕ) (s t : GrpcRequestSignerScheme) (xs us ys vs : Bytes)
    → a < 2 ^ 64
    → b < 2 ^ 64
    → length xs ≡ key_length s
    → length us ≡ key_length t
    → (keccak_256 (session_bytes (pos a) s xs ys) ≡ keccak_256 (session_bytes (pos b) t us vs)
        → session_bytes (pos a) s xs ys ≡ session_bytes (pos b) t us vs)
    → grpc_session_identifier keccak_256 (pos a) s xs ys
      ≡ grpc_session_identifier keccak_256 (pos b) t us vs
    → (a ≡ b) × (s ≡ t) × (xs ≡ us) × (ys ≡ vs)
unfolding grpc_session_identifier
grpc_session_identifier_injective keccak_256 a b s t xs us ys vs p q h k no_collision e =
    session_bytes_injective a b s t xs us ys vs p q h k (no_collision e)
