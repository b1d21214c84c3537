-- ===== src/Lib.antt =====
-- Verification of file.d, a pipeline that reads logs, processes them and sends them on.
--
-- An input plugin reads data and gives it to the pipeline; the pipeline decodes it to events and puts
-- each into a stream; processors take the streams and run the actions on their events; an output
-- plugin gathers events in batches, sends them and commits them, and the input stores the offsets up
-- to which it need not read again. The modules follow the packages:
--
-- - Base: the names, list and byte string lemmas, results, counts and integers that all others share.
-- - Pipeline.Event: pipeline/event.go, the event record and the special events.
-- - Pipeline.Pool: the pool of events of pipeline/event.go. A goroutine's next access to a counter, a
--   flag or a slot is one step, and the goroutines take turns as they like. Children: Sums, Slots and
--   Moves (who may touch a slot), Places and Events (where the events are).
-- - Pipeline.Stream: pipeline/stream.go. The state is the struct `stream`, its linked list a list; a
--   method is a function of the same name, in the case of the language, and the panics are the
--   constructors of `Panic`. Children: Order (numbers of events), Ready (when a stream waits).
-- - Pipeline.Streamer: pipeline/streamer.go with the waits of `blockGet`. Pointers to streams are
--   numbers. A call that takes the locks is one step of `step`; a state that calls lead to is in
--   `Reach`. Children: Cells (writes through pointers), Charged and Reach (the charged streams),
--   Ordered, Blocked (the block list), Stranded, Calls and Timeouts (what an old copy of the block list
--   does).
-- - Pipeline.Batch and Pipeline.Batcher: the two types of pipeline/batch.go. The channels are lists,
--   the sends that come after an unlock are steps of their own, and so are the receives of the
--   workers and their commits. Children: Status; Content, Commits (the order of commits), Channels,
--   Delivery (that what is sealed can always be committed).
-- - Pipeline.Antispam: pipeline/antispam/antispammer.go. Child: Bans.
-- - Pipeline.Processor: the actions and busy flags of pipeline/processor.go. Children: Busy, Actions.
-- - Pipeline.Input: `In`, `streamEvent` and `finalize` of pipeline/pipeline.go, over the antispam, the
--   decoders and the streamer; what is outside the repository is the record `Outside`. Child: Balance.
-- - Pipeline.Matching: the match conditions of pipeline/processor.go, pipeline/plugin.go and fd/util.go.
--   Child: Meaning (what the documentation says of them).
-- - Decoder.Cri, Decoder.Postgres and Decoder.Nginx: the files of decoder/ of these names.
-- - FileInput.Worker: the loop of plugin/input/file/worker.go over the chunks of a file. Children:
--   Lines (what the bytes of the file say), Refinement, Bounds.
-- - FileInput.Offsets: plugin/input/file/offset.go (`save` and `parse`) and slicemap.go. Children: Map,
--   Numbers and Lines (what is written is read back), RoundTrip, Fuel, Broken (what is not read back).
-- - FileInput.Jobs: plugin/input/file/provider.go, with PassEvent of file.go and the reset of
--   resetter.go; Calls has the calls of the provider, Turns the turns of the workers and the relation
--   `Reach`. Children for the proofs: Table, Counted, Deleted, Safe, Maintained, Turned,
--   Reached, Restart, and Race (the gap of the deletion that the others exclude).
-- - Throttle: plugin/action/throttle/in_memory_limiter.go. Children: Window (the buckets), Counts and
--   Answers (the limiter against totals that drop nothing).
-- - Join: plugin/action/join/join.go. Children: Groups (what should come out), Steps, Runs.
-- - MatchRule: cfg/matchrule/matchrule.go. Children: Values, Sizes, Sound, Sets.
-- - HttpInput: plugin/input/http/http.go. Children: Bulk (lines of a body), Sources (the ids of the
--   requests), Auth.
-- - K8s: plugin/input/k8s/multiline_action.go. Child: Whole (logs that come in parts).
-- - Cfg: ParseFieldSelector of cfg/config.go and cfg/substitution.go. Children: Selector, Template.
-- - Examples: runs of the definitions, and the theorems at concrete inputs.
--
-- Numbers are unbounded unless said otherwise. The uint64 of a stream's numbers and the int64 of a
-- batch's are kept as bit patterns and wrap at 2 ^ 64; theorems that need it say that the end is not
-- reached. Counts and sizes of what is held in memory, and offsets in a file, do not reach 2 ^ 63.
-- The loops on fuel are the worker's over a chunk, the two of the offsets parser and the two of Cfg: each
-- round takes a byte at least, so the length of the input and one is enough, which theorems show; a decimal number
-- is written with the twenty digits that a uint64 may have. Time is an argument, and does
-- not go back. Mutexes make a method one step; condition variables show as the steps that wait.
--
-- Not modelled: metrics, logging and the dumps for people; the documents of insane-json, which are
-- handles here; the reading of the configuration but for Cfg, and plugin registration; the input, action and output plugins other
-- than those named above.
pub mod Base
pub mod Cfg
pub mod Decoder
pub mod Examples
pub mod FileInput
pub mod HttpInput
pub mod Join
pub mod K8s
pub mod MatchRule
pub mod Pipeline
pub mod Throttle
