-- ===== src/Lib.antt =====
-- Verification library of the OpenBao Kubernetes KMS provider, a Kubernetes KMS v2 plugin that
-- encrypts the API server's data keys with an OpenBao Transit key.
--
-- The parts, and how they meet. A Transit key version is bound to a Kubernetes key_id by a
-- KeySnapshot; the key_id is a hash of the snapshot's identity (internal/keyregistry). A Registry
-- answers which snapshots are still decryptable; the StateFile keeps their records on disk, linked
-- from generation to generation by hashes. The observer (internal/status/rotation.go) reads the
-- Transit key's metadata, notes new versions as pending records and promotes one of them to be
-- the active key. Each encryption carries annotations and associated data made of the active
-- snapshot, which a decryption checks again (internal/aad). Probes of OpenBao run behind circuit
-- breakers (internal/status/circuit_breaker.go), and ages are read on two clocks (internal/clock).
-- What the probes find is published in a store (internal/status/store.go) that the KMS handlers
-- (internal/kmsv2/server.go) read, once the state file and its checkpoint are saved
-- (internal/status/state_store.go).
--
-- The files:
--   Base             numbers, byte strings, decimal text, Go's (value, error) results. A Go string
--                    is the list of its bytes; an int is ℤ, whose range matters only to the
--                    decimal text (Base/Decimal, int_limit = 2 ^ 63).
--   Crypto           what is used of crypto/sha256 and encoding/base64, with its documented laws.
--   Clock            internal/clock/clock.go. A Time counts nanoseconds since year 1.
--   OpenBao          internal/openbao: Profile is KeyProfile and AssessKeyProfile of transit.go;
--                    Errors is errors.go.
--   KeyRegistry      internal/keyregistry: Snapshot and Registry are keyregistry.go; Records and
--                    State are state.go, identity.go and the retained-snapshot check of
--                    retirement.go, whose transitions are Retirement; Files is the checkpoint
--                    and the two persisted files of state.go; the other files are proofs.
--   Aad              internal/aad/aad.go: Annotations and Canonical; Binding and RoundTrip are
--                    proofs.
--   Status           internal/status: Breaker is circuit_breaker.go; Profile, Records, Rotation
--                    Promotion and Rebuild are rotation.go and bootstrap.go; Store is store.go and
--                    StateStore is state_store.go and state_recovery.go. Controller is the
--                    controller's own state (controller.go, activation.go); Failures is
--                    probe_diagnostics.go, Persistence is persistence.go, Probes and Refresh are the
--                    probes and the decrypt refresh of controller.go; the other files are proofs.
--   Kms              internal/kmsv2: Limits is limits.go and concurrency.go; Server is the handlers
--                    of server.go; Policy is error_policy.go and the classification of
--                    request_lifecycle.go; EndToEnd, Health and Slots are proofs.
--   Tests            sample data over a toy hash that has the documented laws, and the witnesses.
--
-- A Go function with an error result returns a Result, whose error is the list of the sentinels
-- that errors.Is finds in it. Operations that change a receiver return the new one. Loops over
-- slices are recursion on the list, so no fuel is needed. A map is an association list that is
-- read by its first entry. encoding/json is a parameter (marshal) of the definitions that hash or
-- bind its output. SHA-256 and base64 are the parameter Crypto; where a theorem needs their sizes
-- or that decoding undoes encoding, it takes CryptoLaws.
--
-- Not modelled: file and network I/O, locks, logs, metrics, configuration and the command line,
-- request contexts and their timeouts, the recovery from a panic (internal/kmsv2/request_lifecycle.go),
-- the diagnostics of the store (internal/status/diagnostics.go) and the scheduler (internal/status/scheduler.go): a run of the controller is any list of probes and
-- refreshes, each of which takes the readings of the clock, the replies of OpenBao and the ends of
-- its writes as arguments. A persisted file is absent, cannot be read, or
-- holds a value: that encoding/json decodes what it encoded is part of this model (it does so for
-- strings of valid UTF-8). A write ends before its rename, after it, or completes. Error texts are
-- left out. The generation counter of a StateFile wraps at 2 ^ 64.

pub mod Base
pub mod Crypto
pub mod Clock
pub mod Status
pub mod KeyRegistry
pub mod Aad
pub mod OpenBao
pub mod Kms
mod Tests
