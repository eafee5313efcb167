-- ===== src/Lib.antt =====
-- apiforge: an API gateway that serves OpenAI- and Anthropic-style requests from pools of upstream
-- accounts.
--
-- A request's model names a provider in the registry. A provider with several accounts keeps them
-- in a pool, and sends each request through the relay: the relay asks the pool for the accounts to
-- try, takes a slot of one, calls the upstream, and, by what comes back, streams the answer, passes
-- an error on, or cools the account down and tries the next one. When every account is at its cap the
-- request waits until a slot is given back or its budget runs out. The access token of an account
-- comes from a token manager, which reads a credential file and refreshes the token when it is stale.
--
-- The files, by the code that they model:
--   Base                 maps, integers of 64 bits, lists and decimal text (`strconv.Atoi`)
--   Pool                 internal/pool/pool.go: the types, `New`, `healthy`
--   Pool/Slots           `Acquire`, `Release`, `SlotFreed`
--   Pool/Candidates      `Candidates`, `stickyLookup`
--   Pool/Health          `Bind`, `MarkOk`, `MarkRateLimited`, `MarkAuthFailed`, `cooldown`,
--                        `SetPreferred`, `SetEnabled`, `Status`
--   Relay                internal/relay/relay.go: `WithAccountRetry`, `tryAccounts`, `attemptOnce`,
--                        `retryAfter`, `queueWait`, `releaseCloser`
--   Registry             internal/registry/registry.go, and the provider contract, `ModelObjects` and
--                        `HasCapability` of internal/types/types.go
--   Token                internal/token/token.go: `ensureLoaded`, `AccessToken`
--   Server               internal/server/middleware.go: the key, administrator and rate-limit gates
--   Server/Handlers      internal/server/server.go: `dispatch`, `poolFor`, `adminSetPreferred`,
--                        `adminSetEnabled`
--   Server/Images        internal/server/server.go: `imageGenerations`, `dispatchImages`; Server/Edits:
--                        `imageEdits`; Server/Upstream: `writeUpstream`; Server/Lists: the read-only
--                        administrator handlers
--   Cursor               internal/provider/cursor/protobuf.go: the protobuf writers, `readMessage`,
--                        `encodeChatRequest`, `extractResponseText`
--   Cursor/Frames        `frame` and `streamDeltas`
--   Cursor/Chat          internal/provider/cursor/cursor.go: `buildMessages` and the answers
--   Sse                  internal/util/sse/sse.go: `Frames`, `Lines` and `DataFrame`
--   Json                 decoded JSON as `any` holds it, `str`, `intOf`, and the events of an upstream
--   Chat                 the OpenAI request and the chunks of a stream, as the translate.go files share
--                        them; Chat/Turns: the merging of consecutive messages; Chat/Client: what a
--                        client makes of a stream
--   Codex                internal/provider/codex/translate.go: `openaiToCodex`
--   Codex/Collector      `collector` and `apply`
--   Codex/Stream         `StreamChatCompletion`, `AggregateChatCompletion`
--   Codex/Images         internal/provider/codex/images.go
--   Codex/Backend        internal/provider/codex/codex.go: the attempts of a login account, the Responses
--                        body, `AggregateResponses`, `Images`
--   Claude               internal/provider/claude/translate.go: `openaiToAnthropic`
--   Claude/Identity      `ensureIdentitySystem`, and `oauthPatch` of internal/provider/claude/claude.go
--   Claude/Response      `anthropicToOpenAI`
--   Claude/Stream        `StreamMessagesToOpenAI`
--   Gemini               internal/provider/gemini/translate.go: `openaiToGeminiRequest`
--   Gemini/Stream        `geminiToOpenAI`, `StreamToOpenAI`
--   Grok                 internal/provider/grokweb/protocol.go
--   Ssrf                 internal/util/ssrf/ssrf.go
--   Vendor               `parseList` and `Init`, which the provider packages repeat
--   Config               internal/config/config.go; Config/EnvFile: internal/config/envfile.go
-- A function keeps its name in snake case. The other files under these modules hold proofs, and the
-- Tests files concrete runs.
--
-- How the code's state appears. A method takes the pool and returns the new one; its mutex makes it
-- one step, and threads interleave between the steps (Relay/Interleaving). `time.Now()` is an
-- argument, in nanoseconds. A channel of freed slots is its serial number in the order of the
-- broadcasts. What the relay does not control, namely the upstream call and how a wait ends, is the
-- record `World`, in which other requests may change the pool; what a theorem needs of the timer and of
-- the channel is a hypothesis of it. That slots are given back under any interleaving is stated in
-- Relay/Interleaving. A credential source is the record `Source`; the file, the clock and the network
-- that it uses are part of its state, and only its reads and refreshes move them.
--
-- A provider's translation works on decoded JSON: the decoder of encoding/json is a parameter, and the
-- literal maps that the code marshals are records and data types, one constructor for a shape. A random
-- id is given by an argument, for the n-th event or call. A stream is the list of its chunks; what they
-- mean is said by Chat/Client, which puts them together as an OpenAI client does, a call by its index,
-- with its id, name and arguments, and the theorems on streams compare that with the answer that is given
-- at once. What a translation is to say is written down apart from it, in Gemini/Said and
-- Claude/Merging.
--
-- Bounds and fuel. An in-flight count, a cursor and a failure count are natural numbers; the cap and
-- durations are integers, and a product of durations wraps around in 64 bits, as in the code. The
-- loop of `WithAccountRetry` runs on fuel; a round per nanosecond of its budget, and one more, is
-- enough, since a wait takes time. The varint writer has ten rounds, which is enough for 64 bits; the
-- reader of a protobuf message and the reader of frames have a round per byte of their input.
--
-- Not modelled: HTTP, the coding of JSON, the logs, `singleflight` (a caller that joins a running
-- refresh shares its answer), the health report with its sanitizer, the attempts with an API key, the
-- credential files and HTTP clients of the providers, the candidate paths of the configuration, and the
-- Copilot, Qwen and custom providers, which pass requests on.
pub mod Base
pub mod Pool
pub mod Relay
pub mod Registry
pub mod Json
pub mod Chat
pub mod Vendor
pub mod Codex
pub mod Claude
pub mod Gemini
pub mod Config
pub mod Grok
pub mod Ssrf
pub mod Cursor
pub mod Server
pub mod Sse
pub mod Token
