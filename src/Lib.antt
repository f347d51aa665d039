-- ===== src/Lib.antt =====
-- Models of the application "hanamaru-shientool": the purchase of eBay market data by the page,
-- with its credits, the evaluation of these prices, the Yahoo and Aucfan searches, the expense
-- records of a day, the cash of a branch and its closing, and the help assistant.
--
-- Contracts models packages/contracts/src/soldgraph.ts: markets, conditions, page requests,
-- observations, pages, the provider's envelope and the checkpoint (the row of one page of
-- results). Json is the value of JSON.parse, as `unknown` in the source; a number that is no
-- natural number is kept as its text.
--
-- Soldgraph/Request models packages/market-price/src/soldgraph.ts: normalizeKeyword,
-- createEbaySearchPlan, validateSoldgraphPageRequest, soldgraphOperationKey,
-- validSoldgraphRequestId and parseSoldgraphEnvelope. NFKC and the SHA-256 digests are the fields
-- of `Host`; the theorems that need it assume that NFKC is stable (`Stable` in
-- Soldgraph/Request/Idempotent).
--
-- Soldgraph/Workflow models advanceSoldgraphPage of
-- packages/market-price/src/soldgraph-workflow.ts together with the repository of
-- packages/database/src/soldgraph-checkpoints.ts that it saves to. A step is a function of a
-- `World`: the row, the number of calls of the repository so far, and the log of what was saved
-- and asked of the provider. What the step cannot decide itself is in `Surroundings`: whether the
-- lease holds at each call, the answer of `permitted`, the clock, and the provider's one reply.
-- The parser of a page is an argument, for which parseSoldgraphPage (Market/Pages) stands in the
-- program. Its children state the specification: Moves is the state machine of a page, Follows
-- shows that a step only makes its moves, Invariant what the moves keep, Traces the order of
-- saves and requests, Stopping the two modes of stopping, Progress the run that publishes a page,
-- Frees on which replies a credit is freed.
--
-- Soldgraph/Ledger models the rest of soldgraph-workflow.ts: a new checkpoint, an explicit retry,
-- cancelling, and the credits that a list of checkpoints holds. Ledger/Lifecycle takes a page
-- through any number of these operations and steps; Ledger/Budget says which checkpoints the sum
-- is over and Ledger/Owners to whom the request IDs belong, without the two loops.
--
-- Soldgraph/Usage models packages/market-price/src/soldgraph-usage.ts: the provider's usage
-- report and the allowance that follows from it.
--
-- Help models apps/api/src/help/engine.ts: the catalogue and who may see which article (Help),
-- the search (Help/Search, with scores in hundredths), the answer (Help/Answer), the limit on
-- questions (Help/Lease), and the check of what comes in (Help/Question). The language model that
-- selects sections is a function that may fail. A bucket that the function returned by
-- questionLease keeps a reference to has a serial number, so that a late release does not reach a
-- newer bucket. The fixed messages of the answers are not modelled. `toLowerCase` and NFKC are
-- the fields of `Unicode`.
--
-- Market models the evaluation of the prices of one eBay market in
-- packages/market-price/src/soldgraph.ts. Places is classifyEbayLocation and Pages is
-- parseSoldgraphPage, which gives the observations; Amounts is units, the exact reading of an
-- amount; Prices the sort and the quantiles; Observations the merging of the rows of one item
-- (ebayObservationsConflict, mergeEbayLocation and the first loop of evaluateEbayMarket);
-- Evaluate the reasons for and against each observation; Outliers the trimming (Outliers/Strays
-- says which prices are outliers); Histogram priceHistogram; Statistics the whole of
-- evaluateEbayMarket. Amounts stay numbers of millionths, which the source prints with decimal
-- (in Pages) at the end. An exception on a price that is missing or no number is a failure of the
-- model (`broken`), and Statistics/Total shows when there is none.
--
-- Yahoo models the searches of closed Yahoo auctions and of Aucfan in
-- packages/market-price/src/index.ts: Query the requests, the conditions and the search URL,
-- Reading the way back from a URL, Registry the registry of categories and brands and the model
-- numbers in titles, Items and Pages the two parsers of result pages, Script what the Yahoo
-- parser looks for in the text of a page, and Evaluate evaluateMarketPriceCandidates with its
-- statistics.
--
-- Expense models the expense records of apps/api/src/expense.ts: the checks of what comes in, the
-- access to a day and expensePersonalMutation of apps/api/src/expense-cash.ts (Expense), the
-- operations on items (Expense/Items) and on days (Expense/Records), and the follow-ups
-- (Expense/Followups). A `Store` is the rows of one organization; an operation is the body of its
-- transaction, and one that throws changes nothing (`settle`). The wrapper with the idempotency
-- records, and the audit log, are not modelled.
--
-- Cash models the cash of a branch on a day and its closing, apps/api/src/expense-cash.ts: the
-- rows and the authority (Cash), create and the roster (Cash/Roster), entries and corrections
-- (Cash/Entry), replenishing a wallet and taking that back (Cash/Transfers), reconcile and close
-- (Cash/Closing), and command, which runs one action on a day at its present version
-- (Cash/Commands). A transaction is a function of the store; a sequence of commands, in which one
-- that throws changes nothing, is `run` in Cash/Commands/Runs. The clock, the reading of an
-- instant and the identifiers of new rows are in `Call`. The snapshot of a closing is kept as
-- such and not hashed, and the operations that only read are left out.
--
-- Sessions models the store of signed-on sessions, packages/alignment/src/session-store.ts:
-- PrismaSessionStore over the rows of its table, where a text that a ring of keys sealed holds
-- the session. Encryption, base64 and JSON are the parameter `Crypto`, and Sessions/Sealing says
-- what is relied on of them.
--
-- All loops are structural recursions on the list or the text that they read, so no fuel is used;
-- decimal prints twelve digits of the whole part, which is what decimalUnits lets in. Numbers are
-- natural numbers; `Number.isSafeInteger` is a comparison with 2 ^ 53 where the source makes it.
--
-- Not modelled: SQL, HTTP and storage, the web pages, and deployment. Prelude holds Boolean
-- tests, lists, texts and maps that the models share.
pub mod Prelude
pub mod Json
pub mod Contracts
pub mod Soldgraph
pub mod Expense
pub mod Cash
pub mod Yahoo
pub mod Help
pub mod Sessions
pub mod Market
