-- ===== src/Committee/Codec.antt =====
-- The bytes of a committee attestation.
use ika_pre_alpha.Prelude.{
  ℕ, ◌^◌, ◌<◌, ◌≡◌, ap, ◌∙◌, ◌↔◌, arith, [], ◌∷◌, ◌++◌, length, take, drop, All, All-take, ok,
  take-length_append, drop-length_append, take-all, length-take, length-drop, take-append-drop,
}
use mathlib.Core.Path.{ap₂}
use ika_pre_alpha.Prelude.Bytes.{
  Bytes, IsByte, to_le, from_le, from_le-to_le, to_le-from_le, from_le-lt,
}
use ika_pre_alpha.Prelude.Int.{pos, pos_part}
use ika_pre_alpha.Committee.{
  CommitteeAttestation, decode_committee_attestation, encode_committee_attestation,
}

abbrev IsU64 : ℕ → Type 0
IsU64 n = n < 2 ^ 64

-- The eight bytes of the epoch, then the digest.
split_body :
    (n : ℕ) (digest : Bytes)
    → (take 8 (to_le 8 n ++ digest) ≡ to_le 8 n) × (drop 8 (to_le 8 n ++ digest) ≡ digest)
split_body n digest = (take-length_append (to_le 8 n) digest, drop-length_append (to_le 8 n) digest)

decode_body :
    (n : ℕ) (digest : Bytes)
    → IsU64 n
    → length digest ≡ 32
    → decode_committee_attestation (0 ∷ (to_le 8 n ++ digest))
      ≡ ok (record { epoch = pos n; members_digest = digest })
unfolding decode_committee_attestation
decode_body n digest h k = ground (arith, from_le-to_le 8 n h, take-all 32 digest (omega arith))

-- An attestation that encodes decodes back from its bytes.
pub decode-encode :
    (a : CommitteeAttestation) (bytes : Bytes)
    → encode_committee_attestation a ≡ ok bytes
    → decode_committee_attestation bytes ≡ ok a
unfolding encode_committee_attestation
decode-encode a bytes h = ground (arith, decode_body (pos_part a.epoch) a.members_digest)

encode_body :
    (n : ℕ) (digest : Bytes)
    → IsU64 n
    → length digest ≡ 32
    → encode_committee_attestation (record { epoch = pos n; members_digest = digest })
      ≡ ok (0 ∷ (to_le 8 n ++ digest))
unfolding encode_committee_attestation
encode_body n digest h k = ground arith

abbrev body_of : Bytes → CommitteeAttestation
body_of rest = record {
  epoch = pos (from_le (take 8 rest));
  members_digest = take 32 (drop 8 rest);
}

decode_inversion :
    (variant : ℕ) (rest : Bytes) (a : CommitteeAttestation)
    → decode_committee_attestation (variant ∷ rest) ≡ ok a
    → (variant ≡ 0) × (length rest ≡ 40) × (a ≡ body_of rest)
unfolding decode_committee_attestation
decode_inversion variant rest a e = ground arith

body_bytes :
    (rest : Bytes)
    → All IsByte rest
    → length rest ≡ 40
    → to_le 8 (from_le (take 8 rest)) ++ take 32 (drop 8 rest) ≡ rest
body_bytes rest h n =
    let eight : length (take 8 rest) ≡ 8 = omega (arith, length-take 8 rest) in
    let low : to_le 8 (from_le (take 8 rest)) ≡ take 8 rest =
      rw eight at (to_le-from_le (take 8 rest) (All-take IsByte 8 rest h)) in
    let high : take 32 (drop 8 rest) ≡ drop 8 rest =
      take-all 32 (drop 8 rest) (omega (arith, length-drop 8 rest)) in
    ap₂ ◌++◌ low high ∙ take-append-drop 8 rest

encode-decode_cons :
    (variant : ℕ) (rest : Bytes) (a : CommitteeAttestation)
    → All IsByte (variant ∷ rest)
    → decode_committee_attestation (variant ∷ rest) ≡ ok a
    → encode_committee_attestation a ≡ ok (variant ∷ rest)
encode-decode_cons variant rest a (_, h) e =
    let (zero_variant, forty, body) = decode_inversion variant rest a e in
    let eight : length (take 8 rest) ≡ 8 = omega (arith, length-take 8 rest) in
    let u64 : IsU64 (from_le (take 8 rest)) =
      rw eight at (from_le-lt (take 8 rest) (All-take IsByte 8 rest h)) in
    let digest : length (take 32 (drop 8 rest)) ≡ 32 =
      omega (arith, length-take 32 (drop 8 rest), length-drop 8 rest) in
    rw (body, zero_variant)
      (encode_body (from_le (take 8 rest)) (take 32 (drop 8 rest)) u64 digest
        ∙ ap (λ (b : Bytes). ok (0 ∷ b)) (body_bytes rest h forty))

encode-decode :
    (a : CommitteeAttestation) (bytes : Bytes)
    → All IsByte bytes
    → decode_committee_attestation bytes ≡ ok a
    → encode_committee_attestation a ≡ ok bytes
encode-decode a [] h e = unfold decode_committee_attestation in cc
encode-decode a (variant ∷ rest) h e = encode-decode_cons variant rest a h e

-- On byte arrays the strict decoder and the encoder are inverse to one another: bytes decode to an
-- attestation exactly when the attestation encodes to those bytes.
pub decode_iff_encode :
    (a : CommitteeAttestation) (bytes : Bytes)
    → All IsByte bytes
    → (decode_committee_attestation bytes ≡ ok a) ↔ (encode_committee_attestation a ≡ ok bytes)
decode_iff_encode a bytes h = (encode-decode a bytes h, decode-encode a bytes)
