-- ===== src/Lib.antt =====
-- A model of the core logic of Astrate, an implementation of the Astarte device platform, with proofs.
--
-- A device declares interfaces, publishes values on topics below its own, and the platform checks
-- the topic, finds the mapping of the path, stores the value and fires triggers. The modelled parts:
--
-- - Schema: pkg/interfaceschema. Types (types.go), Endpoint and Unique (the endpoint patterns of
--   parse.go: splitEndpoint, checkEndpointUniqueness), Build (ParseInterfaceCanonical, buildInterface,
--   buildMapping and checkObjectAggregation of parse.go, with the violations of violations.go), Trie
--   (trie.go: Add and Match), Compile (compile.go: Compile) and Upgrade (compat.go: CheckMinorUpgrade).
--   A document is built to an `Interface`, which is compiled to a `CompiledInterface` with a trie, in
--   which Match looks up paths.
-- - Triggers: internal/engine/triggers. Policy (policy.go: CompilePolicy, checkHandlersDisjoint,
--   Decide), ErrorName (errorname.go: UpstreamErrorName), Value (match.go: valueMatches and what it
--   calls, on the bits of float64), Condition (match.go: compileSimple, compileData, compileDevice,
--   with fieldErrs of validation.go and CompileCondition of transient.go) and Match (match.go:
--   MatchesData, MatchesDevice, TracksChanges). A configuration is compiled to matchers, which events
--   are held against; its match_path is an endpoint pattern as in Schema.
-- - Engine: internal/engine. Topics (topics.go: splitDeviceTopic, classify, matchInterface) and
--   Introspection (introspection.go: parseIntrospection), Rows (batch.go: individualRow, objectRow,
--   propertyRow, jsonable) and Batch (batch.go: flush, flushOps, commit, finalize, markBroken),
--   and Data (data.go: handle, processData, objectPathOK, noteFormat), where a message becomes an op.
--   The store that a batch writes to is a parameter with a state of its own.
-- - DeviceId: pkg/deviceid/deviceid.go. Parse and String (Base64), FromUUID and UUID (Uuid).
-- - Broker: internal/broker. Acl (aclhook.go: checkACL).
-- - Auth: internal/auth. Claims (claims.go: compileGrant, newToken, Authorizes, AuthorizesChannel),
--   Verify (jwt.go: ParsePublicKeysPEM, Verify) and Cache (cache.go: cacheKey, Cache.Verify). A key set
--   verifies a token to its grants, and the cache keeps them until they expire.
-- - Payload: pkg/payload. Sniff (sniff.go: DetectFormat).
-- - Base: what these share: results that may be errors, byte strings, integers, lists.
--
-- A Go string is its list of bytes; a keyword that the code only compares is a string. An error is a
-- constructor without its wording. A Go integer is a sign and a natural number; a time.Duration is
-- computed in 64 bits with its wrap-around. A map is an association list, or the function of its
-- lookups. A nil pointer is `none`. A failed Add returns the trie that it leaves behind.
--
-- Loops over text run on fuel: splitEndpoint and Match get the length of the text, of which each
-- round takes at least a byte, and matchInterface one round more than the text is long, since each
-- round shortens the prefix. The retries of flushOps run on the list of the answers of its selects;
-- where the list ends while the store still fails, the flush has not returned.
--
-- Parameters stand for code outside the repository and for callbacks: the JSON decoder and encoder
-- (`Codec`, and the decoder of a policy), the regular expressions of claims, the resolver of
-- storage identifiers, the parsers of keys and tokens, SHA-256, the LRU cache (a cache that may
-- forget entries, but finds nothing that was not added under the same key), the lookup of an
-- interface's ownership, the database under a batch, and, until they are modelled, the payload
-- decoders. The patterns of interface and policy names are written out over bytes, strconv.Atoi
-- over digits.
--
-- Not modelled: the store and its SQL, the HTTP handlers and clients, the MQTT sessions, hooks and
-- offline cache, the middleware of authentication, the value codecs of payloads, flows,
-- configuration, logging and the wording of errors and reasons.
pub mod Auth
pub mod Base
pub mod Broker
pub mod DeviceId
pub mod Engine
pub mod Payload
pub mod Schema
pub mod Tests
pub mod Triggers
