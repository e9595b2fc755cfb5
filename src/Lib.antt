-- ===== src/Lib.antt =====
-- Critiq, the back end of a code review service: the parts that decide what a scan stores, what a
-- model's answer is worth, and whether a pull request may be approved and merged.
--
-- A scan of a pull request runs rules and a model over a diff. Its findings are matched with those of
-- the scan it continues, counted, and shown; reviewers decide on the head that they saw, the decision
-- is copied to the provider, and an unblocked pull request is merged.
--
-- Prelude: native numbers, integers, lists, texts and maps that the parts share.
-- Diff: src/queue/diff/diff-parser.ts (`parsePatch`: Diff/Parser) and
-- src/queue/lifecycle/line-mapping.ts (`mapOldLine`, `mapLineThroughHunks`: Diff/LineMapping).
-- Diff/Script and Diff/Render are the independent description: an edit script, its files, its hunks
-- and its text as a patch.
-- Findings: the enums of prisma/schema.prisma and the finding records of
-- src/queue/lifecycle/plan-findings.ts.
-- Similarity: src/common/text/jaro-winkler.ts.
-- Lifecycle: src/queue/lifecycle/carry-forward.ts (`carryForward`: Lifecycle/Carry), status-matcher.ts
-- (`assignNewOrReopened`, `matchFullAgainstBase`: Lifecycle/Matcher), plan-findings.ts (`planFindings`:
-- Lifecycle/Plan), which composes them, and scan-counts.ts (`recomputeScanCounts`: Lifecycle/Counts).
-- Hits: src/queue/dedupe-findings.ts (`dedupeFindings`: Hits/Dedupe).
-- Ai: src/queue/rules/rule-tiers.ts (Ai/Tiers), src/modules/ai/scan/ai-result-validator.ts
-- (`validateAiFindings`: Ai/Validator), ai-deduper.ts (`mergeAiFindings`: Ai/Folding,
-- `dedupeAiFindings`: Ai/Dedupe), regenerate-merge.ts (`mergeWithPreviousRun`: Ai/RunMerge),
-- report-review-clamp.ts (`clampReportReview`: Ai/Clamp) and report-review-repair.ts (`salvageReview`:
-- Ai/Repair), whose values are those of Ai/Json.
-- Rules: src/queue/rules/comment-span.ts (its table: Rules/Syntax, `findCommentSpans`: Rules/Spans), and
-- src/queue/suppression.ts with the tests of a path and of a line that it calls (Rules/Suppression).
-- Queue: src/queue/scan-queue.service.ts (`decideScanMode`: Queue/Mode, `enqueue` and `cancelPending`:
-- Queue/Enqueue).
-- Http: the exceptions that the services throw, and requests that end in a value or one.
-- Members: src/modules/members/members.service.ts (`changeRole`, `remove`: Members/Roles, `invite`:
-- Members/Invites, `resend`, `revoke`, `accept`: Members/Links) and invitation-token.ts (Members/Types).
-- Members/Runs has the requests as steps of a relation.
-- Comments: src/modules/comments/comments.service.ts (`create`, `retrySync`: Comments/Create).
-- Reviews: src/modules/reviews/reviews.service.ts (`submit`: Reviews/Submit, `retrySync`:
-- Reviews/Retry), src/queue/review-sync.processor.ts (`process`: Reviews/Retry), merge-blockers.ts and
-- latest-per-reviewer.ts (Reviews/Blockers), merge.service.ts (`merge`: Reviews/Merge).
-- The other modules hold proofs, and Tests runs of the properties.
--
-- A database table is a list of rows and a request a function from the store to the store and a result;
-- HTTP exceptions are errors by their message. What the provider answers, what other requests do between
-- a read and a conditional write, and whether the queue takes a job are arguments. Effects outside the
-- tables are a list of records in the order they are made. JavaScript strings are lists of UTF-16 code
-- units, numbers are unbounded (line numbers and counts are far below 2 ^ 53), a confidence is a number
-- of millionths, and a similarity is the exact fraction. `randomUUID` is a supply of identifiers.
-- Unicode tables of the JavaScript engine, the hashes of Node's crypto module, the package minimatch and
-- the globs that it is given are parameters, and so are the versions of the rules and of the prompt
-- that the program is built with. Fuel is in `decimal` of Diff/Render, which has one unit more than
-- the number that it writes, and in `scan_line` of Rules/Spans, the loop over a line, which has the
-- length of the line, since each turn goes forward; all else recurs on lists or line counts.
--
-- Not modelled: rule definitions and their regular expressions, finding the regex literals of a line
-- (a parameter of Rules/Suppression), the rule runner, prompts and provider clients, the processors of
-- the queues but for the review copy, what comes in from the provider and the copies of comments to it,
-- webhooks, authentication, the read-only queries, the texts of links and emails, logging, and the
-- deletion of a merged branch, whose failure changes nothing. The languages of extensions that name a
-- property of Object.prototype, and the exact rounding of floating point, are left out.
pub mod Prelude
pub mod Diff
pub mod Findings
pub mod Similarity
pub mod Lifecycle
pub mod Reviews
pub mod Ai
pub mod Tests
pub mod Hits
pub mod Http
pub mod Members
pub mod Queue
pub mod Rules
pub mod Comments
