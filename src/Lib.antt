-- ===== src/Lib.antt =====
-- hey-proxy: a local proxy between coding agents and the model providers. It rewrites requests,
-- forwards them, retries and falls back on other models where that is safe, and translates responses.
-- This library models its decision logic and its byte-level stream processing, with the theorems
-- that make them correct.
--
-- The parts, and the files that model them:
-- - src/fallback.rs, the rules and the policy of model fallbacks. Fallback/Rules has the rule table with
--   `canonical`, `targets`, `validate` and the depth-first search `visit`; Fallback/Policy has
--   `replay_blocker`, `local_tool`, `permanent`, `transient_http`, `has_output` and `prelude_event`;
--   Fallback/Scanner has `SsePrelude`, the incremental scanner that decides on the first events of a
--   stream whether another model may answer. The loop of `inspect` in src/proxy/fallback.rs, which
--   feeds the scanner chunk by chunk, is `Fallback.Scanner.feed_chunks`.
-- - src/proxy/fallback.rs: Attempts has `plan`, which lists the models that may answer a request, and the
--   loop of `forward` over them. Their theorems hold for any rewriting of names (`resolve`) and any
--   forwarding of an attempt (`attempt`); Attempts/Request plans by the rewriting of src/proxy.rs.
-- - src/config.rs, the aliases and the part of `validate_routing` about projects and aliases: Routing. Its
--   `Config` has the fields that routing reads, and an API key is the name of its project.
-- - src/proxy.rs, `rewrite_value`, `requested_effort` and the body that `rewrite` sends: Routing/Request
--   and Attempts/Request. A rewritten request stands for its value, not for its text.
-- - src/proxy/guidance.rs: Guidance has the reminder that `apply` adds to a request, and the codes of a
--   refusal on grounds of security, which src/proxy/capacity.rs asks for.
-- - src/proxy/sse.rs, `SseDecoder`: Sse. Each `&mut self` method takes the state and returns the new one
--   with the events that it pushed, or the error.
-- - src/proxy/capacity.rs, refusals for want of capacity. Capacity has the classification of errors and
--   the translation of one event (`event`, `prelude_event`); Capacity/Scan has `prelude_sse`;
--   Capacity/Stream has `Sse`, which translates a response stream event by event. The loop of
--   `forward_request` in src/proxy.rs that passes a response through it is
--   `Capacity.Stream.feed_chunks`.
-- - src/gemini/partial.rs, function calls that arrive in pieces: Partial has `PartialCalls` with `part`
--   and `drain`, Partial/Path has `parse_path` and `set_path`. The equality of JSON values is the
--   parameter `same`.
-- - src/proxy/recovery.rs and `retry_delay` of src/proxy.rs, the budget of retries: Recovery. Times are
--   numbers of milliseconds; the clock, the random draw, the time asked for by the upstream and the
--   lateness of a sleep are arguments.
-- - src/proxy/messages: Messages. Messages/Protocol is the event protocol of Anthropic's streams as a client
--   follows it; Messages/Stream has `State` with `event` and `end` of messages/stream.rs; Messages/Native has
--   `NativeStream` with `feed` and `end` of messages/gemini_stream.rs; Messages/Relay is the loop by which
--   both pass a response on (`adapt`, and the body in messages/gemini.rs); Messages/Response has the
--   conversion of answers. serde_json, base64, the seal of the replay data and the validation by a schema
--   are the parameters `Codec` and `Backend`.
-- - src/proxy/chat: Chat. Chat/Response has the conversion of an answer of the Responses API into a chat
--   completion (chat/response.rs); Chat/Request has `visible_items`, which reads an assistant's message
--   back into items (chat/request.rs); Chat/Deltas and Chat/Stream have `State` of chat/stream.rs, with
--   the chunks that `event` sends. Chat/Client is a client that puts calls together from the chunks. The
--   printed length of a value is a parameter.
-- - src/proxy/replay.rs: Replay has `for_openai`, which takes out of a request what only Gemini can read.
-- - src/access.rs: Access has `accepts`, which tests an access key.
-- Shared: Base (tests, lists, results, text, UTF-8), Json (the values of serde_json, their accessors and
-- changes), and Framing (the abstract description of the framing of events, which the two scanners are
-- held against).
--
-- How the code is read: a byte string is a list of numbers; a struct is a record with the source's fields,
-- except that a field named `data` is called `acc` and one named `ended` is called `over`; a map is the
-- list of its entries; a loop over bytes or lines is a recursion on the list,
-- and a round of a loop is a function of its own. JSON parsing and printing are parameters
-- (`from_slice`, `to_vec`); the order of the fields of an object, which the source keeps by key, is not
-- modelled, since no accessor sees it. A state after an error is not modelled where the error ends the
-- stream. Machine integers that can saturate (the number of retries, the exponential delay) are
-- written out with their bounds; byte counts stay far below 2 ^ 64 by the bounds proved.
--
-- Fuel: `visit` recurses on fuel 17, one more than the names that may be active at once
-- (`max_attempts` is 16); the loop of `plan` runs on fuel 17, one more than there may be candidates;
-- `parse_path` reads its segments on fuel 129, one more than it allows. All three are shown not to run
-- out. Everything else recurses structurally.
--
-- Not modelled: HTTP, WebSocket and TLS, the async runtime, files and processes, the log database, the
-- pages, the command line, sign-in, and the deployment scripts, which are input and output; the
-- other conversions between the providers' formats; and the text of error messages.
pub mod Base
pub mod Json
pub mod Framing
pub mod Fallback
pub mod Sse
pub mod Guidance
pub mod Capacity
pub mod Recovery
pub mod Attempts
pub mod Routing
pub mod Partial
pub mod Messages
pub mod Chat
pub mod Replay
pub mod Access
