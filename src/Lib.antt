-- ===== src/Lib.antt =====
-- Retrom is a self-hosted browser game library. Its web client (web/) plays a game in a runtime
-- that a provider supplies as a JavaScript module. The server describes a launch by a JSON
-- envelope; the client parses and validates that envelope before it loads any code of a
-- provider. This development models that boundary, the timeline of the tasks of a start, the
-- dispatcher that loads a provider's module and makes a runtime by it, the end of a runtime,
-- the upload of files in chunks, the drafts of saves that are not uploaded yet, the approval of
-- the games that wait for a review, and three parts of the immersive mode, which is played by a
-- gamepad: the model of a gamepad's actions, the detector of the buttons that are kept for the
-- client, and the jumps in a list.
--
-- Text, Text/Order: JavaScript strings as lists of UTF-16 code units, and their comparisons.
--   Decimal: the text of an integer.
-- Value: the JavaScript values that JSON text yields, with own properties and prototypes.
-- CanonicalJson and the files below it: web/features/player/runtime/canonical-json.ts.
--   CanonicalJson/Scan, CanonicalJson/Strings and CanonicalJson/Numbers hold the readers,
--   CanonicalJson itself `value`, `array` and `object` (`items` and `members` are their loops)
--   and `parseCanonicalJSON`. CanonicalJson/Outcome has postconditions on readers;
--   CanonicalJson/Canonical says which values may be returned; CanonicalJson/Reading and
--   CanonicalJson/Sound have the proofs.
-- Regex, Regex/Laws: the meaning of a regular expression, and a matcher by derivatives that
--   decides it.
-- Envelope and the files below it: web/features/player/runtime/envelope.ts. Envelope/Patterns
--   has its regular expressions, Envelope/Texts, Envelope/Checks and Envelope/Json the checks
--   on single values, Envelope/Runtime and Envelope/Resources those on the parts of an
--   envelope, and Envelope the exported functions. Envelope/Browser is what they use of the
--   browser. The other files hold proofs, and Envelope/Tests the examples.
-- Immersive/Buttons and Immersive/Chord: web/features/player/immersive-controls.ts, the classes
--   ImmersiveChordDetector and ImmersiveNeutralGate; an update takes the state and returns the
--   output with the next state. Immersive/History, Immersive/Memory, Immersive/DoubleChord,
--   Immersive/Presses and Immersive/Neutral hold proofs.
-- Immersive/ListJump: web/features/immersive/list-jump.ts, with proofs in Immersive/Neighbours.
--   Immersive/Tests has the examples.
-- Startup, Startup/Tasks: web/features/player/startup-task-model.ts, the class StartupTimeline;
--   a call takes the timeline and returns what is shown with the next one. Startup/Visible,
--   Startup/Hidden, Startup/Rows, Startup/Reached, Startup/Maps, Startup/Leaves and
--   Startup/Gone have proofs, Startup/Tests examples.
-- Provider and the files below it: web/features/player/runtime/provider-dispatcher.ts. A
--   function takes the events so far and returns its outcome with the events behind it
--   (Provider/Effects). Provider/Body reads a body, Provider/Fetching requests a module,
--   Provider/Contract has the validators, and Provider the functions that join them, which use
--   Envelope for the checks of a reference and of an envelope. Provider/Assembly,
--   Provider/Rules, Provider/Verified, Provider/Loading, Provider/Agreement and
--   Provider/Running have proofs, Provider/Tests examples.
-- Input and the files below it: web/features/immersive/input-model.ts. Input/Gamepad and
--   Input/Directions have the snapshots, Input/Navigation the class NavigationInputModel and
--   Input/Claim the class GamepadClaimModel. Input/Arming and Input/Repeats have proofs,
--   Input/Tests examples.
-- Transfer and the files below it: web/features/scans/upload-transfer.ts. Transfer/Selection
--   has uploadProblem, Transfer/Sending sendChunk and Transfer/Files transferFile; the requests
--   are the record Network, and Transfer/Protocol says what docs/http-api-contract.md and the
--   server (internal/service/scans/upload.go, internal/storage/uploads.go) promise of them.
--   Transfer/Folders, Transfer/Uploadable, Transfer/Verdict, Transfer/Rounds, Transfer/Sent
--   and Transfer/Stored have proofs, Transfer/SampleServer a server that keeps the promises, and
--   Transfer/Tests examples.
-- Drafts and the files below it: web/features/player/save-drafts.ts and
--   web/features/player/draft-upload.ts. Drafts/Identity has sameIdentity, Drafts/Renewal
--   uploadWithRenewal, with a log of what is sent, Drafts/Store the operations on the memory
--   and the database, and Drafts/Listing listDrafts. A transaction is completed or aborted as
--   the list `endings` says. Drafts/Paths, Drafts/Keys, Drafts/Leaves, Drafts/Kept,
--   Drafts/Others and Drafts/Uploaded have proofs, Drafts/Tests examples.
-- Review and the files below it: web/features/games/review-approval.ts. Review/Judging has the
--   tests of a game, Review/Batch the three workers of a batch as steps by events (a worker
--   begins a round, an approval settles, the signal is aborted), Review/Approval the batches
--   and approveReviewSnapshot, and Review/Snapshot reviewSnapshot. Review/Publishable,
--   Review/Counts, Review/Between and Review/Approved have proofs, Review/Tests examples.
-- Disposal and the files below it: web/features/player/runtime/wait-native-save.ts
--   (Disposal/Waiting) and web/features/player/runtime/dispose-runtime.ts (Disposal/Exiting),
--   which uses it. The clock and the runtime are the records Clock and Runtime. Disposal/Tests
--   has examples.
--
-- The parser calls itself on what is left of the source, which is no structural part of it, so
-- its functions take fuel: twice the length of the source and one more for `value`, and the
-- number of units and one more for the loop of `string`. A call that runs out of fuel is a
-- result of its own, told apart from the SyntaxError.
--
-- The loop of transferFile takes fuel, a number of rounds that its caller gives. The code has
-- no such bound: a server that always refuses a chunk because it is writing one keeps it in
-- the loop. Over a network that keeps to the protocol, two rounds for each byte of the file and
-- for each such refusal, and two more, are enough.
--
-- The loop of waitForNativeSave takes fuel for 10001 checks: the deadline is 10000 ms away, and
-- a wait of no time at all is left out.
--
-- The loop of reviewSnapshot takes fuel for 1002 pages: the code throws at the offset 100100,
-- which is that of the 1002nd.
--
-- A function of the program that throws returns `none` or `failed`. An exception and the error
-- that the program makes of it are not told apart.
--
-- Not modelled: a time that is infinite or between two milliseconds, in the detector; an object
-- that is no array but has an array in its prototype chain is converted by `String` as a plain
-- object; the order that JavaScript gives to integer keys (no check depends on it); the two
-- zeros of a double. The URL parser and the size of a value's JSON text are parameters, in the
-- record Platform. The response to a request, the digest, the import of a module and its
-- functions are parameters, in the records DispatcherEnvironment and Foreign; a stream that
-- never ends is left out. Infinite axis values are left out. The labels and percentages of
-- startup tasks. The server (Go), the React components and the browser's own interfaces are
-- left out.
pub mod CanonicalJson
pub mod Decimal
pub mod Disposal
pub mod Drafts
pub mod Envelope
pub mod Immersive
pub mod Input
pub mod Prelude
pub mod Provider
pub mod Regex
pub mod Review
pub mod Startup
pub mod Text
pub mod Transfer
pub mod Value
