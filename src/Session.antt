-- ===== src/Session.antt =====
-- sdk/core/src/grpc/session-identifier.ts: the session identifier that a gRPC request opens.
-- keccak256 is a third-party package's, an argument here.
pub mod Binding
mod Tests
use mathlib.Core.List.{reverse}
use ika_pre_alpha.Prelude.{ℕ, ◌-◌, ◌%◌, ◌^◌, List, [], ◌∷◌, ◌++◌}
use ika_pre_alpha.Prelude.Bytes.{Bytes, to_le}
use ika_pre_alpha.Prelude.Int.{ℤ, pos, negsuc}

pub data GrpcRequestSignerScheme : Type 0 where
  ed25519 secp256k1 secp256r1 : GrpcRequestSignerScheme

abbrev pub signer_scheme_byte : GrpcRequestSignerScheme → ℕ
signer_scheme_byte ed25519 = 0
signer_scheme_byte secp256k1 = 1
signer_scheme_byte secp256r1 = 2

-- `DataView.setBigUint64(0, value, false)`: the value wraps to 64 bits, and its highest byte is first.
abbrev wrap_64 : ℤ → ℕ
wrap_64 (pos n) = n % 2 ^ 64
wrap_64 (negsuc n) = 2 ^ 64 - 1 - n % 2 ^ 64

abbrev pub set_big_uint_64 : ℤ → Bytes
set_big_uint_64 value = reverse (to_le 8 (wrap_64 value))

abbrev grpc_text : Bytes
grpc_text = b'G' ∷ b'R' ∷ b'P' ∷ b'C' ∷ []

-- The bytes that are hashed.
pub session_bytes : ℤ → GrpcRequestSignerScheme → Bytes → Bytes → Bytes
session_bytes epoch signer_scheme signer_public_key preimage =
    (0 ∷ 0 ∷ 0 ∷ 0 ∷ 0 ∷ 0 ∷ 0 ∷ 0 ∷ [])
    ++ (grpc_text
        ++ (set_big_uint_64 epoch
            ++ (signer_scheme_byte signer_scheme ∷ (signer_public_key ++ preimage))))

pub grpc_session_identifier :
    (keccak_256 : Bytes → Bytes) → ℤ → GrpcRequestSignerScheme → Bytes → Bytes → Bytes
unfolding session_bytes
grpc_session_identifier keccak_256 epoch signer_scheme signer_public_key preimage =
    keccak_256 (session_bytes epoch signer_scheme signer_public_key preimage)
