-- ===== src/Lib.antt =====
-- A model of copilot-openai-proxy, a server that answers the OpenAI chat API by conversations with
-- Copilot over WebSockets, and the theorems on it.
--
-- The parts, and the files that model them. A request passes the API key test (Auth, of
-- internal/server/middleware.go) and reaches a handler (Requests, of internal/openai/handler.go and
-- models.go), which normalises the model's name (ModelId), makes prompt and images of the messages
-- (Messages and Images, of internal/openai/images.go), and asks the client of internal/copilot for
-- a completion (Prompt, of client.go, session.go and stream_events.go). The client takes a session from
-- the session manager (SessionManager, of session_manager*.go), which starts sessions (Start, of
-- start.go, with the cookies of Cookies) with retries (StartRetry, of start_retry.go); it uploads the
-- images (Attachments, of attachments.go) and sends the prompt (Outbound, of outbound.go and
-- protocol.go) through the pump of the session's connection (Pump, of conn_pump.go, and Connection),
-- which answers challenges (Hashcash, of hashcash.go) and passes the other events on (Protocol, of
-- protocol.go). They end in a whole answer or a stream (Completion, of client.go, stream_events.go and
-- handler.go), whose bytes are Sse (of internal/openai/sse.go); errors (Errors, of errors.go) end in a
-- status (Handler). The names of models come from the site's scripts (Catalog, of
-- internal/copilot/models.go). Http has what these parts use of net/http. Config and ClientConfig are
-- internal/config/config.go and internal/copilot/client_config.go.
-- Client is NewClient of client.go, which wires these parts together, with the way out that proxy.go
-- chooses, and Entry is what cmd/copilot-openai-proxy/main.go makes of the configuration for it.
--
-- How state and operations correspond. Definitions have the source's names in lower case. The session
-- manager is a record with the fields of sessionManager; its map of sessions is an association list
-- beside the list by age, and what it does to connections and goroutines is a list of effects. A
-- function of the source that holds the lock throughout is one function on this record. One that gives the lock up is a
-- sequence of such functions; the other goroutines act, by an arbitrary function of the state under
-- named conditions, while a caller waits for capacity and while a session is started (World, Round),
-- while images are uploaded and answers collected, and at the ticks of shutdown. In the gaps that are
-- left, from an unlock to the release of capacity, the closing of connections and maybeRefill that
-- follow it, between a granted unit and the lock that is taken next, and between two sections of one
-- acquire, nothing else acts. The order in which Go walks a map is the order of the association list;
-- the theorems on sweeps are on every key, whatever the order. Times are natural numbers; a signed int
-- is an integer without bound, but for strconv.Atoi and the durations that main.go computes, which have
-- 64 bits. Strings are lists of code points.
--
-- Parameters, for what the source only calls: the weighted semaphore (an interface with the laws that
-- its documentation states, and an instance that counts), Go's Unicode tables beyond ASCII, SHA-256,
-- base64, the verbs of fmt, JSON, os.Getenv, flag.Parse, strconv.ParseBool, net/url, the regular
-- expressions of the catalog, fresh UUIDs and the cookie jar. What net/http, a WebSocket and a context
-- give are arguments: a response is a status and a body that may fail to be read, a connection the
-- frames that it delivers and the error after them.
--
-- Concurrency. The goroutines of a pump act on one state by steps, in any order; closing the channel
-- and the connection in its close is one step. A call of the client that waits is a function of what
-- the other goroutines make of the registry meanwhile.
--
-- Fuel. The search for a nonce has fuel, and ends for fuel above any nonce that solves the challenge.
-- The refill loop has fuel, and ends for fuel above the units that are free and the pending request,
-- when nothing else touches the manager. All other loops are structural.
--
-- Not modelled: the close frame of websocket.go, the routing table of internal/server, internal/util, and
-- the signals and the order of shutdown in main.go: I/O, randomness and glue. Log lines are left out
-- throughout.
pub mod Base
pub mod Errors
pub mod Session
pub mod SessionManager
pub mod Hashcash
pub mod Protocol
pub mod Completion
pub mod StartRetry
pub mod ModelId
pub mod Handler
pub mod Images
pub mod Messages
pub mod Config
pub mod ClientConfig
pub mod Auth
pub mod Cookies
pub mod Requests
pub mod Http
pub mod Attachments
pub mod Outbound
pub mod Catalog
pub mod Sse
pub mod Connection
pub mod Start
pub mod Pump
pub mod Prompt
pub mod Client
pub mod Entry
pub mod Examples
