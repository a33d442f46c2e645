-- ===== src/Lib.antt =====
-- CoreAX runtime assurance: the decisions that a host process takes about an agent's actions.
--
-- The development models the TypeScript under src/ of the repository. Each module names the file
-- that it is about; a definition has the source's name in snake case.
--
-- * Text, Value: the language's strings, and the values that a source reads as `unknown`. A number
--   among them is carried by its decimal text. `trim` strips the white space of ECMAScript.
-- * Runtime (src/runtime-adapter/): a decision request is brought into normal form (Normalize),
--   the local adapter decides it (Local), and the remote adapter asks a server, repeats, reads the
--   answer (Response) and falls back (Remote). Its configuration is resolved from the caller's and
--   the environment (Resolver). The network is an argument: what it answers to each request.
-- * Escalation (src/review-loop/config.ts, errors.ts, waiter.ts, manager.ts): the polling loop for
--   a human decision (Waiter), the waits that callers share and the calls of reporter and resolver
--   (Manager). Callbacks and clock are an environment over a world of their own. The loop runs on
--   fuel, (timeout + 1) * (retries + 2) + 1 rounds: a round that goes on either moves the clock by
--   the poll interval or uses up one of the retries in a row.
--
-- * Guard (src/guard/): a policy of rules, of which the first that applies decides (Rules), the
--   decision by the policy object of a gateway (Legacy), where the policy comes from (Providers), and
--   what a guard does with its decision (Execute): it runs the action, blocks it, or asks for an approval and waits. Action, handlers,
--   hooks and transport are callbacks on a world; regular expressions and the redaction of texts
--   are arguments.
-- * Quotas (src/gateway/quotas/): the adapter that counts in memory, and the limits on a call
--   (Limiter). Moments are milliseconds, rates and limits whole numbers, tokens integers: a rate
--   with a fraction is not modelled. The text of a date, and the floor of the floating-point product
--   of a time and a rate, are arguments.
-- * Entitlements (src/gateway/entitlements/): the test of a pattern with stars (Glob), and whether
--   the lists of a tenant and its principals allow a tool (Check). The lower case of a text is an
--   argument.
--
-- * Governance (src/governance/client.ts): the wait for the resolution of a review (Wait), on fuel
--   of timeout + 2 rounds, since each round but the last moves the clock, and the run of a
--   governed action (Action). The client of the service is a set of callbacks.
-- * Upload (src/audit/upload-state.ts, uploader.ts): which bytes of a log an upload sends, its
--   attempts and the offset that is kept. The service stores a range whole or not at all, and an
--   attempt that ends with an error may have left its range there (Pieces, on ranges of a file).
-- * Policy (src/policy/index.ts): the match of a tool and its server against an allowlist.
-- * Store (src/governance/store.ts, src/review-loop/store.ts): rows that are only ever added. The last
--   row of each key (Latest), the reviews that wait for a person (Pending), the join of all rows of a
--   submission and the examples made of it (Joined), the events (Replay), and the older store of
--   proposals (ReviewLoop). Identifiers, digests and the comparison of moments are arguments.
-- * AgentState (src/agent-state/): identifiers in normal form, the state of a run (Payload), its way
--   into headers and out of them (Codec), and the alphabet for URLs (Encoding). JSON, base64 and the
--   cases of letters are arguments.
-- * DecisionFlow (src/middleware/decisionFlow.ts): the approval token of a call, its verification, and
--   the decisions that are asked of the runtime and kept (Kept), under keys that tell questions apart
--   (Keys, on the texts of Texts). The request is that of
--   Runtime.Mapper (src/runtime-adapter/mappers.ts). Verifier and runtime are callbacks on a world.
-- * Registry (src/middleware/registryState.ts): the handlers of a server's tools, each known by its
--   number. What a frozen registry lets through (Frozen), what is detected of the tools once each
--   has its wrapper (Detection), and the window of the last calls of a tool (Stats). The hashes of
--   functions and of texts are arguments.
--
-- Concurrency is modelled, as a sequence of events, for the waits that the callers of the escalation
-- manager share. The uploads in flight, which the calls for one log file share, are not: uploads run
-- one after the other. Texts of dates, stack traces and log output are left out. Not modelled are the
-- HTTP and file access, the detectors and telemetry, the evaluator, and the gateway's proxy.
pub mod Prelude
pub mod Text
pub mod Value
pub mod Runtime
pub mod Escalation
pub mod Guard
pub mod Quotas
pub mod Entitlements
pub mod Governance
pub mod Upload
pub mod Policy
pub mod Registry
pub mod Store
pub mod AgentState
pub mod DecisionFlow
