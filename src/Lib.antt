-- ===== src/Lib.antt =====
-- texas-fold-em keeps the tokens of a Fold account alive and carries its transactions into Firefly
-- III. A broker holds the only refresh token of the account, renews it, and serves access tokens
-- over HTTP; an integration stages Fold's transactions as rows of a database, has them classified
-- and reviewed, and pushes them to Firefly.
--
-- Which file models what (paths from the root of the repository):
-- * Common and its children: Boolean tests, lists, text as lists of character codes, decimals.
-- * Fold, Fold/Errors: fold.go. `refresh_tokens` is RefreshTokens by what the call meets, a `Reply`;
--   `subject_of_jwt` is SubjectOfJWT.
-- * Store, Store/File, Store/File/Durability: store.go. `State` and `Store` with `set` and `reopen`
--   (Set and OpenStore), and writeFileAtomic call by call, with any of its calls failing.
-- * Broker and its children: broker.go. `token`, `init`, `refresh_locked`, `tick` and `keep_warm` are
--   Token, Init, refreshLocked and KeepWarm on a `World` of the store and the requests made; a
--   `Moment` is the clock, Fold's reply and the disk. A call under the mutex is one step, so an
--   interleaving of callers is a list of steps (`run`, `queue`).
-- * Server, Server/Access, Server/Statuses: server.go. `handle` is the router with its middleware.
-- * TxnType and its children: internal/integration/txntype.go. `check_type` is CheckType, on the table
--   firefly_accounts as a list.
-- * RefundRef, RefundRef/RoundTrip: internal/integration/refundref/refundref.go.
-- * Push and its children: internal/integration/push.go, refund_link.go and firefly/write.go. `push`
--   and `update` are Push and Update, `build_create_request` is buildCreateRequest, `link_refunds` and
--   `link_refund` are linkRefunds and LinkRefund. The row is `Row`, what a push changes is `World`, and
--   Firefly is a parameter, the record `Service`; what is relied on of it is `CountsJournals`.
-- * FoldSync and its children: internal/integration/fold_sync.go. `sync_since_firefly` and
--   `sync_recent` are SyncSinceFirefly and SyncRecent. FoldSync/Merchant is ExtractMerchant of
--   internal/integration/fold/extract.go and NormalizeMerchant of internal/integration/sync.go.
-- * Classifier and its children: internal/integration/classifier/classifier.go, and source.go of the
--   same folder. `classify_one` is ClassifyOne on an `Engine` of the tables and tiers,
--   `decided_row` is the statement of ApplyDecision, `classify_matching` is a run over a `Scope` of the
--   `Table` staged_fold_txns, `match_fold_card` is matchFoldCardToFireflyAsset. A run takes one row
--   after another, as with a concurrency of one. Classifier/Refunds is refund.go there: `refund_signal`,
--   `pick_refund_candidate`, `find_refund_candidates` and `match_refunds`, on the rows that its queries
--   select.
-- * Review and its children: internal/integration/ui/sureness.go, and parts of review.go.
--   `sureness` and `sure_rank` are sureness and sureRank, `surest_page` is surestPage on rows with
--   their ranks, and Review/Memo is sureMemo. Review/Actions is what a person does: `handle_card_hold`,
--   `handle_card_later`, `handle_card_skip` and `handle_card_restore`.
-- * Llm and its children: internal/integration/llm/client.go. `generate_json` is GenerateJSON on a
--   `Session` of the client and what it did; Llm/Request is doOnce with the errors, and Llm/Breaker
--   what the client remembers, with `rest` and `settle`.
-- * Mirror and its children: internal/integration/sync.go, firefly_accounts_sync.go and
--   fold_accounts_sync.go. `sync_all` is SyncAll, `sync_categories` is syncCategories,
--   `sync_firefly_accounts` and `sync_fold_accounts` are the two Sync; Mirror/Pages is the loop over
--   the pages of Firefly, Mirror/Rows the upserts of a transaction, and Mirror/Amounts decimalToPaise.
--   Mirror/NewCategory is CreateCategory of internal/integration/category_create.go.
-- * Examples and its children: concrete inputs at which the theorems apply.
--
-- Numbers are ℕ: instants, ids that are at least 0, and paise with a sign. The amount -2^63, and
-- instants before the zero time, are left out. Three loops are on fuel: that of SyncSinceFirefly, whose
-- fuel is its cap, since each page but the last handles a transaction; that of GenerateJSON, whose fuel
-- is six requests, four attempts and one for each parameter that can be refused; and that over the
-- pages of Firefly, whose fuel is a bound of their number, which the code does not have. That the fuel
-- is enough is proved. The other loops are over lists.
--
-- Not modelled: the classifier's language model, places and learning, the rest of the review
-- pages, the table merchant_lookup, the timers, the configuration, and the routes of the
-- integration. JSON, base64, time.Parse, strings.ToLower and float64 are parameters where the code
-- uses them; of float64 the classifier needs a comparison, a ratio and a mean (`Floats`).
-- Logging and the bodies of HTTP answers carry no state and are left out.
pub mod Common
pub mod Fold
pub mod Store
pub mod Broker
pub mod Server
pub mod TxnType
pub mod RefundRef
pub mod Push
pub mod FoldSync
pub mod Llm
pub mod Mirror
pub mod Examples
pub mod Classifier
pub mod Review
