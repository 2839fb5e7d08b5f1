-- ===== src/Lib.antt =====
-- BSW: two asynchronous services that take bets on sporting events. line-provider keeps events in
-- memory and publishes a message when one finishes; bet-maker keeps bets in PostgreSQL, and settles
-- them from those messages (the consumer) and by asking line-provider again (the reconciler).
--
-- - Common: shared names, Boolean tests, lists and a Python dict.
-- - Money: src/bet_maker/helpers/money.py and src/line_provider/helpers/money.py, over a finite
--   `Decimal` (sign, digits, power of ten).
-- - LineProvider: src/line_provider. Schemas has the data and the validators of the bodies;
--   StateMachine `is_transition_allowed`; Store the `InMemoryEventStore`, `create_event` and the
--   selectors; Service `set_event_state` and `RabbitEventBus.publish`; Api the routes and the
--   middleware, and a run over a sequence of requests; Lifespan lifespan.py with the settings and
--   the providers of facades/deps.py. Steps has the relation that one request refines,
--   Steps/Invariant the invariant of store and messages, Steps/Finality its consequences,
--   Steps/Raised the calls of `set_event_state` that raise.
-- - BetMaker: src/bet_maker. Models has the rows and the results; Exceptions the classes of
--   exception that the code tells apart, and tenacity's `retry` as a record with laws; Database the
--   transactions of uow/, over a record of the SQL statements that the code sends; Settle the
--   interactors `settle_bets_for_event` and `cancel_bets_for_event` (Flip: what they do to the
--   table, Frame: what they leave alone); Client the lookups of events over HTTP (Answers: what an
--   answer becomes; Stub: the dict that stands in for them); PlaceBet `place_bet` and POST /bet
--   (Acceptance: when a bet is stored); BetRoutes the routes GET /bet/{bet_id} and GET /bets
--   (Reading: what a 201 says of the table; Listing: GET /bets after POST /bet) and GET /events;
--   Consumer the handler `on_event_finished` (Delivery: what a delivery does; Context: what its
--   logs carry); Reconciler the job (Dispatch and Effect: one event, Resolves: one row, Tick: a
--   tick and the loop). Interleaving has sessions of the consumer, the reconciler and place_bet
--   that overlap, with the rows that each holds locked (Captured, Exclusive, Once); UnitOfWork the
--   contract of uow/abstract.py and the object of uow/postgres.py; Health GET /health and the
--   pings; Settings settings/config.py and the retries that it sets up (Waits: how long they wait);
--   AppState what is pinned on `app.state` and facades/deps.py; Lifespan what lifespan.py acquires,
--   pins (Start) and gives back (Release); Migrations the four revisions of alembic/versions (Head:
--   every walk over them; Upgrade: the upgrade of alembic/env.py, in pieces of which any number is
--   performed before the connection is lost). App has the routes of app.py behind middleware.py,
--   and the life of the service as a sequence of requests, deliveries and ticks (Frame: the table
--   over it; Shown, Promises: what clients are told of a bet; Effects: a request by its answer).
--   Reference is a database on lists and a retry by recursion that meet the laws assumed; the Tests
--   run on them.
-- - Messaging: what src/line_provider/lifespan.py, src/bet_maker/lifespan.py and the subscriber of
--   src/bet_maker/api/messaging.py declare on RabbitMQ, with messaging/routing.py (Wiring: the
--   starts in any order; Routing: where a message goes; Reference: a broker that meets the laws
--   assumed). Wire has the JSON that passes between the two schemas/ (RoundTrip: from writing to
--   reading).
-- - System: both services and what passes between them. Agreement: the bets against the outcomes;
--   Lookup: the client against the store; Settlement: a tick against line-provider; Restart: one
--   after line-provider has started anew; Outcome: what a client is shown before and after one;
--   Pipeline: the way of a message over the queues (Accounting: a count of them); Tracing: the
--   X-Request-ID of a request through both services.
--
-- The services meet in three places: the message of line-provider's Service is the one that the
-- Consumer reads; the Client asks the routes of its Api; and Consumer and Reconciler both end in
-- Settle.
--
-- State is passed explicitly. A coroutine of line-provider awaits nothing between reading the store
-- and writing it, so a request is one step up to its publication. Instants and identifiers are
-- numbers; the clock, uuids, and failures of the broker and the database are arguments (`Broker`,
-- `Weather`). RabbitMQ, PostgreSQL, httpx, tenacity and pydantic's field tests are parameters with
-- the documented behaviour that the code relies on as laws. A retry has its own number of attempts;
-- `reconciliation_loop` runs for a number of rounds, since the source's loop has no end of its own.
-- In System, transactions of bet-maker run one after another, line-provider starts once except in
-- Restart, and what others hold locked meanwhile is part of a `Weather`; in Interleaving a session
-- selects, holds its locks while others work, and then commits or aborts. The waits between
-- attempts change no result and stand beside the retries, in Settings. Not modelled:
-- acknowledgements that fail, logging, OpenAPI examples, the texts among the settings, GET /health
-- of line-provider (a constant), the offline mode of the migrations, and of a migrated table the
-- primary key and the server's defaults: the engine's options, the servers and the configuration of
-- logging: they are calls of libraries with no logic of their own. helpers/status.py raises
-- NotImplementedError and has no caller.
pub mod Common
pub mod Money
pub mod LineProvider
pub mod Messaging
pub mod BetMaker
pub mod System
