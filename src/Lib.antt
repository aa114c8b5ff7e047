-- ===== src/Lib.antt =====
-- A verification library for the TypeScript SDK of dWallets on Solana: `sdk/core` builds requests to
-- the ika network and checks what its validators answer, `sdk/solana` reads and writes the accounts
-- of the Solana program.
--
-- `Prelude` holds the shared names: tests on numbers, lists, byte arrays (`List ℕ`), signed integers
-- and `Result`, a call that answers a value or throws an error. Each other module models one part.
--
-- Schemes: sdk/core/src/client/hash-signature-validation.ts and the enumerations of
--   sdk/core/src/client/types.ts. The objects that the source reads by key or walks with
--   `Object.entries` are association lists in the same order, and each function is one definition
--   of the same name in snake case. `Schemes/Names` holds the printed names. The source's types that
--   exist at compile time only are not modelled, and the enumerations have no value outside their
--   constants.
-- Committee: sdk/core/src/grpc/committee.ts. `Committee` has the attestation's codec, the check of
--   the members, `unsignedCommittee` and `verifySignedCommittee`; `Committee/Answer` the check of a
--   validator's answer against the chain; `Committee/Held` the class `VerifiedMembers`, as functions
--   from the old map to the new one. Blake2b, Ed25519 and the BCS codec of the member list are third
--   parties' and stand in the record `CommitteeCrypto`, which every definition takes. The answers of
--   the chain and of the clock during a call are a `ChainRun`, by the number of the read. The loop
--   that waits for the chain takes as fuel one round more than its budget in milliseconds: every
--   round waits for a pause of a millisecond at least and the loop stops once the budget is used up.
--   `Array.prototype.sort` is a stable insertion sort. `bigint` is the type ℤ of `Prelude/Int`, and
--   the texts of errors are left out, with the values that they name kept.
-- Client: sdk/core/src/grpc/dwallet-client.ts and sdk/core/src/grpc/transport.ts. `Client` has the
--   errors with their flags and the record of refused keys; `Client/Submit` the loops of
--   `submitTransaction` and `read` over the validators, which return the record they leave;
--   `Client/Submit/Across` `submitTransactionAcrossEpochClose`, one round of its two loops at a time:
--   `Phase` says which loop runs, and the log of a `Progress` holds the requests sent and the closing
--   refusals recorded, the last first. Encoding, sending and decoding one call is `CallRun`, the clock
--   and the caller's functions are `AcrossRun`, by the number of the round. The fuel is one round more
--   than the wait in milliseconds: a round calls the caller or a validator and takes a millisecond at
--   least, and no round starts after the wait. One call of the client runs at a time; calls that
--   interleave on the record are not modelled. `Client/Submit/Keys` is `networkKeysByAgeResponse`, the
--   repeated read of the network keys, with what `close` does to it; its fuel is one attempt more than
--   its budget in milliseconds, as each attempt but the last is followed by a pause.
-- KeyIds: sdk/core/src/grpc/network-key-id.ts, and of the client the reading of hex and the choice of
--   the latest network key. A text is a list of character codes.
-- CrossCheck: sdk/core/src/grpc/read-cross-check.ts. The answers of the two endpoints and the clock are
--   an `EndpointRun`, by the number of the round, and a read that the window ends before has failed.
--   Of two first reads that both fail the model takes the first endpoint's error. The fuel is one
--   round more than the window in milliseconds, as each round waits for the interval.
-- Limits: sdk/core/src/grpc/request-size-limits.ts. A request is typed by its kind, with the byte
--   fields of bcs.ts of variable length; a request object that lacks a field is not modelled.
-- Session: sdk/core/src/grpc/session-identifier.ts, over keccak256 as an argument.
-- Records: sdk/core/src/common/request-records.ts. `Records` has the pending requests, the ids of
--   charges and the chain readers as records of functions, `Records/Lookup` the lookup `findSession`.
--   keccak256 and the BCS codec are `RecordsCrypto`. The two builders of share attestation bytes are
--   not modelled.
-- Networks: sdk/core/src/grpc/deployed-networks.ts and deployed-networks-internal.ts. A network is
--   `mainnet` or `testnet`, or the caller's own with its keys. A reader of a chain's records is a
--   record of functions that answer, or throw a text.
-- Attested: sdk/core/src/grpc/attestation-record.ts, with the attestation structs of
--   sdk/core/src/grpc/bcs.ts in `Attested/Kinds`. `Attested/Record` is the check of one record as a
--   kind, `Attested/Proof` the proof envelope and the rebuilt bytes, `Attested/DWallet`,
--   `Attested/Shares` and `Attested/Voucher` what a record must name, `Attested/Stored` the stored
--   values and the network key. keccak256, Ed25519 and BCS are `AttestationCrypto`, where `none` is a
--   call that throws. Of an error the failed check and the field are kept.
-- Signing: sdk/core/src/grpc/signature-verification.ts, over the interface `UserCryptography` of
--   sdk/core/src/client/user-cryptography.ts and a codec of the metadata structs.
-- Answers: sdk/core/src/grpc/answer-checks.ts. `Answers/Sent` has what requests sent,
--   `Answers/Checks` four of the checks and `Answers/PublicDkg` the fifth.
-- Acceptance: sdk/core/src/grpc/dwallet-share-acceptance.ts and share-acceptance-signing.ts, with key
--   derivation and signing as `HolderSigner`.
-- KeyOutput: sdk/core/src/grpc/network-key-output.ts. The reads of one call and the clock are an
--   `OutputRun`; a read is its answer and the time it settles at, and the timer that it races fires
--   at the deadline or at once. The fuel of a wait is one round more than its budget in milliseconds,
--   as each round but the last is followed by a pause and a round after the budget fails.
-- Accounts: sdk/solana/src/accounts.ts, with the account table of wire-tables-data.ts and the digests
--   of addresses.ts. The fixed accounts are in `Accounts`, the vouchers in `Accounts/Vouchers`, and
--   those of variable length in `Accounts/Variable`, with the layout that the program stores in
--   `Accounts/Variable/Layout`. The attestation accounts are not modelled.
-- StoredShare: sdk/solana/src/record-checks.ts, the check of an encrypted share's account (Accounts)
--   against its attestation (Attested), with `AttestationCrypto` as there.
-- CheckedReader: `checkedSolanaShareReader` of sdk/solana/src/usability.ts, which joins both with the
--   check of a dWallet's attestation, over the reads of the accounts as parameters. A reader that
--   cannot read by an address is left out.
--
-- The lookup of a request (Records) and its session identifier (Session) share the identifier's bytes;
-- a submission (Client) sends what the limits (Limits) let through, and its pinned setups ask the held
-- members of the committee (Committee) whether a key is a member's. The checks of answers (Answers) and
-- the acceptance (Acceptance) run the checks of attestations (Attested), whose trusted keys and listed
-- keys come from the networks (Networks); the reader over a network's list answers the reads of a key's
-- output (KeyOutput). The proof of a share's ownership, the engine that joins these
-- parts and the Solana program's instructions are not modelled.
pub mod Prelude
pub mod Schemes
pub mod Committee
pub mod Records
pub mod Client
pub mod Limits
pub mod Session
pub mod KeyIds
pub mod CrossCheck
pub mod Networks
pub mod Attested
pub mod Signing
pub mod Answers
pub mod Acceptance
pub mod KeyOutput
pub mod Accounts
pub mod StoredShare
pub mod CheckedReader
