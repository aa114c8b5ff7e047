-- ===== src/Session/Tests.antt =====
-- Session identifiers of small inputs, and the theorem about them at a concrete input.
use ika_pre_alpha.Prelude.{ℕ, zero, suc, ◌≡◌, refl, [], ◌∷◌, arith}
use ika_pre_alpha.Prelude.Bytes.{Bytes}
use ika_pre_alpha.Prelude.Int.{pos}
use ika_pre_alpha.Session.{ed25519, secp256k1, session_bytes}
use ika_pre_alpha.Session.Binding.{grpc_session_identifier_injective}

unfoldable sevens : ℕ → Bytes
sevens zero = []
sevens (suc n) = 7 ∷ sevens n

abbrev same : Bytes → Bytes
same bytes = bytes

hashed :
    session_bytes (pos 258) secp256k1 (9 ∷ []) (5 ∷ [])
    ≡ 0 ∷ 0 ∷ 0 ∷ 0 ∷ 0 ∷ 0 ∷ 0 ∷ 0 ∷ 71 ∷ 82 ∷ 80 ∷ 67 ∷ 0 ∷ 0 ∷ 0 ∷ 0 ∷ 0 ∷ 0 ∷ 1 ∷ 2 ∷ 1 ∷ 9 ∷ 5
      ∷ []
unfolding session_bytes
hashed = refl

abbrev epoch : ℕ
epoch = 3

abbrev preimage : Bytes
preimage = 1 ∷ 2 ∷ []

grpc_session_identifier_injective_example :
    (epoch ≡ epoch) × (ed25519 ≡ ed25519) × (sevens 32 ≡ sevens 32) × (preimage ≡ preimage)
unfolding sevens
grpc_session_identifier_injective_example =
    grpc_session_identifier_injective same epoch epoch ed25519 ed25519 (sevens 32) (sevens 32)
      preimage preimage (omega arith) (omega arith) refl refl (λ e. e) refl
