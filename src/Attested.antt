-- ===== src/Attested.antt =====
-- sdk/core/src/grpc/attestation-record.ts: the check of an attestation that the network signed, with
-- the attestation structs of sdk/core/src/grpc/bcs.ts. keccak256, Ed25519 and BCS are third-party
-- packages' and come in as `AttestationCrypto`. Bytes are lists of numbers, so a copied array is the
-- array; of an error's message the model keeps the failed check and the field.
pub mod Kinds
pub mod Record
pub mod Proof
pub mod DWallet
pub mod Shares
pub mod Stored
pub mod Voucher
pub mod Sample
mod Tests
