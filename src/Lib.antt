-- ===== src/Lib.antt =====
-- The pulse data platform: an ingestion and warehouse pipeline with data-quality monitoring.
-- This library models the parts of src/ that decide, keep state and can go wrong on their own,
-- and proves what they promise. The database is a value: a table is the list of its rows, a
-- transaction is a function of the tables, and an error rolls back, so it carries no tables.
-- Only an attempt of a delivery commits, its claim, before a second transaction that can fail.
--
-- Base holds what the modules share: Boolean tests on native numbers, lists, tables that are
-- updated row by row, dictionaries in the order of insertion, stable sorting, outcomes with an
-- error, text, decimal numerals and regular expressions.
--
-- Alerts is src/quality/alert_service.py with its tables in src/quality/monitoring.sql. Rows has
-- the tables and the arguments, Identity is `incident_key`, with Canonical for the sorting of
-- its keys, Lifecycle is `validate_transition`, Recording is `record_alert` with its one UPDATE
-- and two INSERTs, Changing is `change_status`, `acknowledge_alert` and `resolve_alert`, Listing
-- is `list_alerts`. Invariant says when the tables are well formed. Recorded and Transitions say
-- what a call that returns has done; Validity, Replays, Progress, Totality and Incidents prove
-- what follows.
--
-- Delivery is src/quality/delivery.py and src/quality/notifications.py. Settings is
-- `DeliveryConfig.from_environ`, Candidates is `_discover_candidates` and
-- `_candidate_is_still_due`, Claiming is `_claim`, Attempts is `_complete` and `_attempt`,
-- Running is `deliver_due`, `list_deliveries` and `retry_delivery`. It reads the alerts that
-- Alerts writes. Ledger has the invariant of the outbox, Interleavings the steps of concurrent
-- workers, Settled and Accounting the summary of a run, Columns and Promptness the agreement of
-- discovery with the claim, Totality how an attempt ends.
--
-- Retention is src/quality/retention.py. Rows has the tables that it deletes from besides the
-- alerts and their deliveries, Settings is `RetentionConfig.from_environ`, Eligible is
-- `_eligible_ctes`, `_counts` and `preview_retention`, Applying is `apply_retention` with its
-- DELETE statements in order: `apply_between` counts on one database and deletes from another,
-- which a reporter or an operator may have written since, `apply_retention` is the run that
-- nothing comes between. No writer comes between two of the DELETE statements. Agreement
-- compares counts and deletions test by test, Applied says when a run commits, Validity and
-- Evidence what a run that nothing comes between keeps well formed and keeps.
--
-- Quality is how results of checks are summed up and stored. Results is `summarize` and
-- `should_block` of src/quality/models.py, Runs is `DatasetQualityRun` and the identities of
-- src/quality/execution.py, Persisting is `persist_quality_run` of src/quality/persistence.py,
-- which calls `record_alert` for each critical failure. Summaries, Upserts, Turns and Persisted
-- say what is counted and stored; Alerting is what one call of `record_alert` leaves for the next.
--
-- Operations is the lifecycle of orders in src/operations/models.py. Statuses is
-- `OperationalStatus`, STATUS_STAGE and `valid_transition`, Events is `OperationalEvent` with its
-- checks, `event_latest_revisions` and `latest_order_events`, whose loops are the dictionary of
-- Latest. Revisions says what the two return, Fulfilment what orders can go through.
--
-- Connectors is src/onboarding/connector_state.py. State is `ConnectorStateStore` method by
-- method, Machine is its calls in sequence and the state machine of one connector, Refinement
-- shows that the tables run these machines, Projections that what is written for an order is read
-- back.
--
-- Streaming is the consumer of src/streaming/kafka_consumer.py. Messages is
-- `deserialize_marketplace_message`, Consuming is `MarketplaceKafkaConsumer.consume` over the
-- list of what its polls return and the ways that `process` and the commit end,
-- KeyboardInterrupt included; Accounting says what is counted and committed, Identity what is
-- let through.
--
-- Intelligence has the records that the intelligence layers hand each other.
--
-- Decisions is src/intelligence/decisions.py and decision_models.py. Frames and Registry are the
-- frames, Evidence and Components are `_components` and `_relevant_tasks`, Contracts is the
-- `__post_init__` of `DecisionReadinessAssessment`, Assessing is `stable_decision_id` and, as
-- `frame_assessment`, what `assess_decision_frame` does between its call of `validate_opportunity`
-- and its call of `validate_decision_assessment`. Required and Bar say what its lookups find and
-- what its tests mean, Review what readiness rests on, Handed what the sequencing gets.
--
-- Sequencing is src/intelligence/sequencing.py and sequencing_models.py. Sources has its four
-- arguments, Graph and Validation are `_validate_source_graph` with its indexes, Items and
-- Contracts the records with their `__post_init__`, Leverage, Sequence and Portfolio the parts of
-- `_derive_portfolio`, Safety the patterns that screen the text, Building is
-- `validate_investigation_sequencing_portfolio` and `build_investigation_sequencing_portfolio`.
-- Keyed, Indexed, Resolved, Lookups, Gathered and Total follow what validation leaves for the
-- lookups; Cleaned, Built, Affected, Linked, Followed and Accepted show that a derived portfolio
-- passes the validation; Reference and Breadth compare the leverage with the assessments, Ranking,
-- Ordered and Recommendation the order and what is recommended. Identities are clean where they
-- are as the upstream constructors leave them, stripped of white space at both ends. Base.Regex
-- has the patterns of `re`: a repetition takes at most as many rounds as the text has characters,
-- which is enough since a round that takes nothing leads nowhere else; Base.Decimal writes a
-- number with as many rounds as the number.
--
-- Parameters stand for code that is not in the repository: `digest` for the SHA-256 of a JSON
-- text, `uuid5` and the identities of `uuid4`, `encode` for the JSON values of the database
-- driver, which in a delivery may raise, `dumps` and `loads` of json for the ids of the
-- connectors, `int` and `lower` of the Python runtime, `is_word` and `is_digit` for the `\w` and
-- `\d` of its `re`, a provider that is not the logging one, the decoding of a Kafka record, and
-- how `process` and a commit end. Where a theorem relies on what they do, it says so in a
-- hypothesis: that an identity of `uuid4` is new, that the digest does not collide, that a JSON
-- text is read back as what was written. Instants are natural numbers, in UTC. Every loop goes
-- over a list, that of `consume` over its polls, whose end is an interruption in a poll, so
-- nothing else here needs fuel.
--
-- Not modelled: connections and schema installation, the text of log lines and of most errors, the
-- command-line front ends, Spark jobs, Airflow DAGs, dbt models, the connectors to shops and
-- marketing services, the reports, the engines that find opportunities and plan investigations,
-- and of the decisions `validate_decision_assessment` and the portfolio.
pub mod Alerts
pub mod Base
pub mod Connectors
pub mod Decisions
pub mod Delivery
pub mod Intelligence
pub mod Operations
pub mod Quality
pub mod Retention
pub mod Sequencing
pub mod Streaming
