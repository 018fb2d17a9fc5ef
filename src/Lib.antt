-- ===== src/Lib.antt =====
-- A verification library for Tripwire, a launch auditor: a worker watches a chain for new token
-- launches, forecasts what becomes of them, commits the hashes of its reports to the chain before
-- the outcomes are known, and scores the forecasts later; an API lets a reader check what was
-- committed. The library models the parts on which that promise rests, as functions by clauses over
-- explicit states, and proves what makes them correct.
--
-- Parts, and the files that model them (paths from the repository's root):
--   Scoring.Outcome, Scoring.Eligibility: packages/scoring/src/types.ts and eligibility.ts, the scored
--     cells and which report-outcome pairs may count.
--   Scoring.Metrics: packages/scoring/src/metrics.ts and base-rate.ts, the measures of a forecaster.
--   Hex: hexadecimal texts as JavaScript compares and lowers them, on lists of code units.
--   Commit.Merkle: apps/worker/src/commit/merkle.ts, buildMerkleTree and verifyProof.
--   Commit.Batch, Commit.Job: apps/worker/src/commit/job.ts, the recording of a batch and the query for
--     the pending reports, and runCommitBatch with all that it calls. The two tables and the module's
--     variable `unconfirmed` are the record `Store`; what the chain and the clock answer in one run is
--     the record `Tick`. Commit.Artifacts: the artifact commits of the same file.
--   Api.Receipt: apps/api/src/merkle.ts and verify-receipt.ts, the reader's checks. They use the
--     worker's tree and the commit job through their theorems.
--   Metabolism.State, Lifecycle, Reconcile, Budget: apps/worker/src/metabolism/state.ts, lifecycle.ts,
--     reconcile.ts and budget.ts, packages/db/src/lifecycle-chain.ts and deepdive-budget.ts: the state
--     machine of the agent's key, the hash chain of its log, the reconciliation of its bill, and the
--     budget and the gate of its runs. Lifecycle.Append: the writer of that log in
--     apps/worker/src/metabolism/lifecycle-runner.ts, whose rows are read back as
--     apps/api/src/server.ts does.
--   Metabolism.Ledger, Metabolism.Epoch: apps/worker/src/metabolism/spend-ledger.ts with
--     apps/worker/src/deepdive/pricing.ts and cost.ts, the ledger as a list of rows (Store, Record) and
--     what a run is recorded at (Pricing, Cost); and the reconciliation of a tick in
--     lifecycle-runner.ts, which composes the ledger, the table of epochs and Metabolism.Reconcile.
--   Outcomes, of apps/worker/src/outcomes, from the events of a pool to the verdict of a row:
--     BlockTime: block-time.ts, with its cache as a value. Series: series.ts (Liquidity, Build),
--     coverage.ts (Coverage), and the prices of packages/chain/src/uniswap-events.ts (Price). Quote:
--     quote.ts, whose encoder throws on a number that is out of range. Digits: the numbers that the
--     expression for transient errors finds 429 in. Insider: resolve-insider.ts, the replay of a
--     cluster's transfers. Resolvers: the context and the verdicts, and in Liq, Drawdown, SellImpaired and TradingAlive resolve-liq.ts,
--     resolve-drawdown.ts, resolve-sell-impaired.ts and resolve-survival.ts. Resolve: resolve.ts, which
--     looks up what a resolver needs and chooses it, with the caches of the process as the state
--     (QuoteDecimals, Pool, Run). Rows: enumerate.ts and the table of outcomes. Sweep: loop.ts, which
--     picks the rows that are due (Interleave, Due) and stores what their resolvers come to (Deferral,
--     Store, Run).
--   Watcher.Cluster, Watcher.PrimaryPool: apps/worker/src/watcher/cluster.ts, the wallets of a token's
--     creator, and primary-pool.ts, the choice of a token's main pool.
--   Watcher.Retry: apps/worker/src/watcher/retry.ts, which the series retry their calls by.
--   Watcher.Poller, Freshness, Logs: apps/worker/src/watcher/poller.ts and freshness.ts and
--     packages/chain/src/logs.ts: the cursor of the watcher, the age of a token, logs by windows and
--     by batches of topic values.
--   Alerts: apps/worker/src/alerts.ts, the alerts of a tick and the messages at their edges.
--   RpcBudget: packages/rpc-budget/src: the queue by priority, the token bucket, the scheduler that
--     joins them (promises and timers are the events of a step function), and the response cache.
-- Each part has its definitions in the file of its name, what is proved in the modules below it, and
-- concrete inputs in a module Examples. Prelude passes on the library's names and has the tests on
-- numbers, the lists, the stable sort and the case lemmas that the parts share.
--
-- Choices of the model:
--   Numbers are natural; a difference that the source lets fall below 0 is written out as a
--     comparison of sums, and a signed input is the ℤ of Prelude.Integers. Money is in whole
--     micro-dollars, where the source's rounding is then a division that is written out, and the
--     bucket's tokens in 1/60000 of a token, where every millisecond adds a whole number. Times are in
--     milliseconds.
--   Thrown errors are `none` or a constructor. Texts of messages and details are left out, or are
--     constructors where the code chooses between them. Text keys are texts.
--   Parameters stand for code outside the repository: keccak256 of a pair and of a canonical JSON, the
--     JSON parser, the recovery of a signer, the RPC calls and the database. What is assumed of them
--     stands in the theorems: digests in lower case, no collision among the values at hand, timestamps
--     that do not fall, pools within the range that was asked for, answers for a range that join.
--   Floating-point ratios of the outcome rules are compared as the fractions that they stand for. A call
--     that fails is a constructor of `Settled`; a call that is retried is a function of the attempt. A
--     deadline is a comparison of times. A database table is the list of its rows, whose writes succeed,
--     and a query is a filter and a stable sort.
--   Loops over lists are recursion on the list. The others are on fuel: the retries on their number of
--     tries; the rounds of the fair order on the limit, since a round takes one row or is the last; the
--     groups of equal scores on the number of scores; the Merkle rounds on the number of leaves, since
--     a round of two or more nodes is shorter (the theorem on the builder has a tree for every nonempty
--     batch); the scheduler's loop on the number of queued jobs, since each pass
--     takes one; the windows of logs on the number of blocks, since each has one at least; the two
--     binary searches on the source's own bound on the iterations; the digits of a number on the
--     number, which is more than they are.
--
-- Not modelled: the database's failures, HTTP, the calls of language models, Telegram, environment
-- variables, the Solidity registry, the web pages, and, so far, the forecasters and the scorer.
pub mod Prelude
pub mod Scoring
pub mod Hex
pub mod Commit
pub mod Metabolism
pub mod Outcomes
pub mod Api
pub mod Alerts
pub mod Watcher
pub mod RpcBudget
