-- ===== src/Lib.antt =====
-- The Redpanda Terraform provider (redpanda/): what it does between Terraform and the Redpanda
-- Cloud API when calls fail, take long, or run at once.
--
-- A resource of the provider takes a gRPC connection from the pool, finds its cluster through the
-- control plane, starts an operation and waits for it, sends updates with a field mask, and decides
-- by the error of a read whether it leaves the Terraform state. Tokens come from an OAuth endpoint,
-- through a cache file; every call passes an interceptor that follows the server's rate limits; a
-- BYOC cluster is set up by a plugin in a subprocess.
--
--   Base        Go's strings as lists of bytes, maps as association lists, lists, Boolean tests
--   Errors      redpanda/utils/utils.go, the classification of errors (IsNotFound, ...)
--   Values      the three states of a Terraform value
--   Removal     redpanda/utils/graceful_removal.go, HandleGracefulRemoval
--   Retry       redpanda/utils/retry.go, Retry; Retry/Attempt, a call that is retried by a handler;
--               Retry/History, the rounds before the last one
--   Operation   redpanda/utils/utils.go, AreWeDoneYet
--   ClusterWait redpanda/utils/utils.go, RetryGetCluster
--   Lookup      redpanda/cloud/controlplane.go, the lookups by ID and by name
--   ClusterResource  redpanda/resources/cluster/resource_cluster.go, Create, Read, Update and
--               Delete, with internal/clustermask and plan_modifiers.go beside it
--   Topic       redpanda/resources/topic/resource_topic.go, Create, Read, Update and Delete, with the
--               merge of configurations and FindTopicByName of redpanda/utils/utils.go
--   Protobuf    redpanda/models/schema/protobuf_canonicalize.go, when two schemas are the same
--   Avro        redpanda/models/schema/avro_canonicalize.go, the same for Avro
--   Schema      redpanda/resources/schema/resource_schema.go, with the model in
--               redpanda/models/schema/resource_model.go
--   User        redpanda/resources/user/resource_user.go, Create, Read, Update and Delete, with
--               redpanda/models/user/ and the names of mechanisms of
--               redpanda/utils/enums/handrolled.go
--   FieldMask   redpanda/utils/protobuf.go, GenerateProtobufDiffAndUpdateMask
--   ConnPool    redpanda/cloud/connpool.go, ConnPool
--   Auth        redpanda/cloud/auth/, BuildTokenSource, the token cache, the retry policy
--   RateLimit   redpanda/cloud/ratelimiter.go, parseRateLimit and Limiter
--   Urls        redpanda/utils/utils.go, NormalizeClusterAPIURL and SplitImportID
--   Byoc        redpanda/utils/byoc.go, RunByoc and what it calls
--
-- Each operation is a function with the name of the source's, in snake case, and a struct is a
-- record. A function that returns an error as well returns a `Reply`; an error is a record of what
-- the source observes of it. Logging is left out, but for the entries that forwardLogs makes.
--
-- Time is a number of nanoseconds. Retry is recursion on fuel, one unit for each round of its loop;
-- each round but the last takes at least a nanosecond, so that two rounds more than the timeout has
-- nanoseconds are enough, and the results that depend on it use that fuel. Arithmetic on int64 is
-- written out where it can leave the range: the wait unit of Retry, and the durations of
-- parseRetryAfter and parseRateLimit.
--
-- Parameters of the definitions, with what they rely on as named hypotheses: the gRPC services, the
-- clock, random numbers and the context (World, Server, Client, Cloud, Broker, Registry, Users), the
-- parser of protobuf files, the decoder and the encoder of JSON (Bodies), `fmt.Errorf` with %w
-- (Wrapping, which puts its text in front), the comparison of protobuf values, the answers of the
-- file system and of the processes (Outside, Call, Environment), the default policy of the HTTP
-- client. Case folding, white space and the verb %q are those of ASCII text. Terraform's framework is
-- taken to read the plan, the configuration and the state and to write the state without an error.
-- A map is an association list, which is iterated in its order.
--
-- Left out: the schemas of the resources and data sources and the models that fill requests and read
-- replies, but for those of a topic, a schema and a user; the handlers other than Create, Read,
-- Update and Delete of a cluster, of a topic, of a schema and of a user; generated code
-- and its generators (cmd/, internal/schemagen, internal/apidesc); the mocks and tests; the set-up
-- of gRPC connections, and OAuth itself.
pub mod Base
pub mod Errors
pub mod Values
pub mod Removal
pub mod Retry
pub mod Operation
pub mod ClusterWait
pub mod ClusterResource
pub mod Lookup
pub mod FieldMask
pub mod ConnPool
pub mod Auth
pub mod RateLimit
pub mod Urls
pub mod Topic
pub mod Protobuf
pub mod Avro
pub mod Schema
pub mod User
pub mod Byoc
