-- ===== src/Answers.antt =====
-- sdk/core/src/grpc/answer-checks.ts: the checks of the network's answer to a request that changes
-- state, over the record checks. A variant that the request names is a constructor.
pub mod Sent
pub mod Checks
pub mod PublicDkg
mod Tests
