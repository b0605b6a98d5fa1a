-- ===== src/Lib.antt =====
-- The game server of the repository (server/src): the services that keep the simulated economy and
-- its characters. Each service is an in-memory store behind a set of methods; they share the event
-- bus, the contracts share the balances of the market, and the actions read the world clock and the
-- needs. The tick loop is their composition: on every beat it runs the actions' tick, the matching of
-- the market and the arrivals of travellers, and once for each new day of the world the lifecycle
-- pass, the support of families, the decay of the needs and the recovery of the sick, in this order
-- and on the one bus.
--
-- Parts, and the files they model:
--   Base        shared: results, whole numbers, keys, insertion-ordered maps, sums, lists, and the
--               interface of doubles with its laws (Base/Double)
--   Events      server/src/common/domain-events.ts: DomainEventBus (on, off, emit), generateEventId
--               (publish, with the emission that follows it) and the payloads
--   Currency    server/src/modules/currency/currency.service.ts, currency.types.ts: seedWallet,
--               deductFee, transfer, the queries, recordTransaction, findByIdempotencyKey.
--               Currency/Requests has the two ways in which a call can end, Audit the wallets against
--               the log, Funds overdrafts and the supply, Kept and Replay idempotency, Wallet the keys.
--   Market      server/src/modules/economy/market.service.ts: balances, createListing, createOrder,
--               the queries; Market/Trade has matchOrders and recordPriceHistory. Market/Rounds has
--               the two ways in which a round can end, Funds and Payments the money, Soundness the stores,
--               Listing expiry and counts.
--   Contracts   server/src/modules/economy/contracts/contracts.service.ts: createContract,
--               acceptContract, completeContract, breachContract. Contracts/Lifecycle has the steps
--               of a contract, Escrow the money.
--   Needs       server/src/modules/needs/needs.service.ts. Needs/Bounds has the ranges, Decay the
--               daily decay and its warnings.
--   Lifecycle   server/src/modules/characters/lifecycle/lifecycle.service.ts. Lifecycle/Stages has
--               the stages by age, Daily the daily pass.
--   Simulation  server/src/modules/simulation/simulation.service.ts: world time and day number.
--   Actions     server/src/modules/simulation/actions/: the catalog (Actions/Catalog), the queue and
--               ActionService. Actions/Timing has the durations, Pauses the pauses, Tick the tick.
--   Routines    server/src/modules/simulation/routines/: setRoutines, goOffline,
--               processOfflineRoutines and processLogin. Routines/Loop has the passes and their limit,
--               Durations and Totals the report.
--   Family      server/src/modules/simulation/family/family.service.ts. Family/Support has the daily
--               support.
--   World       server/src/modules/world/world.service.ts. World/Edges has the edges.
--   Travel      server/src/modules/travel/travel.service.ts: startJourney and the queries;
--               Travel/Hazards has rollHazard, Travel/Resolution resolveArrivals. Travel/Arrivals has
--               the arrivals, Journeys and Ending the journeys' life, Weight their duration.
--   Health      server/src/modules/health/health.service.ts: applyCondition, resolveCondition,
--               resolveExpiredConditions; Health/Tables has the configuration, Health/Treatment
--               getTreatmentReduction. Health/Severity has the severities, Recovery the recovery.
--   Accounts    server/src/modules/accounts/ and server/src/modules/auth/auth.service.ts (Accounts/Auth):
--               createAccount, the refresh tokens, register, login, refresh, logout. Accounts/Login has
--               registration and login, Rotation the exchange of refresh tokens.
--   Characters  server/src/modules/characters/characters.service.ts: createCharacter, killCharacter,
--               resetCharacter and the queries. Characters/Alive has the index of the living, Turnover
--               creation, Resetting the reset.
--   Random      the seeded generators of the services of server/src/modules/characters: hashSeed,
--               seededRandom, mulberry32. Random/Biased has what the stats and traits draw from them.
--   Wheels      server/src/modules/characters/wheels/: weightedSelect and spin; Wheels/Content has
--               tools/content/wheels.json, Selection what is chosen.
--   Birth       server/src/modules/characters/birth/birth.service.ts: startRitual, spinWheel,
--               completeRitual, the balances and pauses. Birth/Spins has the ways in which a spin can
--               end, Charges its cost, Holds and Pauses the pause, Invariant, Rituals, Runs and Finality the
--               rituals' life.
--   Stats       server/src/modules/characters/stats/: initStats and the queries; Stats/Types has the
--               bias tables. Stats/Ranges has the bounds, Blindness what the player is shown, Content
--               the tables beside the wheels.
--   Traits      server/src/modules/characters/traits/: rollTraits, applyTraitBias, generateHints;
--               Traits/Types has the tables. Rolling, Hints and Probability are about these three.
--   Dashboards  server/src/modules/economy/dashboards/dashboard.service.ts. Dashboards/Summary has the
--               rows, Shortages the shortages.
--   Progression server/src/modules/progression/xp.service.ts, curves.ts (Progression/Curves). Climb
--               has the loop over levels, Levels the awards and decay.
--   BotDetection server/src/modules/security/bot-detection.service.ts. BotDetection/Window has the
--               window.
--   Moderation  server/src/modules/moderation/moderation.service.ts, and writeAuditLog of
--               server/src/modules/admin/admin.service.ts. Moderation/Types has the data, Sanctions
--               what resolveReport does.
--   Tick        server/src/modules/simulation/tick.service.ts: TickService with the setters, the timer
--               and tick. Tick/Days has the daily passes, Soundness the services' invariants.
--
-- How state and operations correspond: a service is a record with a field for each of its stores;
-- a method takes the service (and the time, where it reads the clock) and returns its result with
-- the service that it leaves. A thrown error is `err`. A `Map` is an association list in insertion
-- order, as a `Map` iterates. Names are the source's, in snake case.
--
-- The services share objects. In Tick the one bus goes from each call to the next, and the store of
-- the needs service is handed on between the loop and the actions that hold it too; the families get
-- the stages by the function that the tick makes of the lifecycle service.
--
-- Choices. Numbers are whole: amounts, prices, days and milliseconds are integers without a bound,
-- which a double holds exactly below 2^53. Fees of 1 % are the exact upward quotient, and a modifier
-- is counted in hundredths. An id `${prefix}_${Date.now()}_${n}` is the value `issued prefix time n`,
-- so that ids of different counters differ; a key that a caller chooses is `chosen text`, and a
-- chosen key that imitates an issued one is not represented. The module-level counters are fields
-- of their service. Listeners of the bus are numbers; the server registers none, and what a listener
-- does is not modelled. Logging is left out. A text's `slice` counts bytes, which agrees with the
-- source behind a common prefix. Loops over stores are recursions on the store. The loop of the
-- offline routines counts its passes down from 10000, the limit that the source itself sets;
-- Routines/Loop is about that limit. The loop over levels has as fuel the levels up to 500, the bound
-- of its own guard. Where the code rounds what it computes in doubles (cargo weights, treatments,
-- experience, stats, traits, shares of wheels, averages), the doubles are a parameter W with an
-- instance of Double; the laws of the order and of rounding are the hypothesis IsRounded, which whole
-- numbers meet. The random numbers are a function of the number of calls so far, with the range as a hypothesis. The
-- seed of the world, a file of the tools, is an argument. A 32-bit integer of the seeded generators is
-- its bit pattern, a number below 2^32, with the wrap-around written out; a text is hashed by its
-- character codes, which `charCodeAt` returns for the characters of the basic plane. The digits of a
-- number are counted out with the number itself as fuel, of which each digit takes one. The weights of
-- a wheel do not sum to zero, so that no share is NaN. A random UUID is an argument; that it is not
-- empty and names no character yet is a hypothesis. bcrypt and the signing of access tokens are
-- parameters, of which only that a text matches its own hash is used; a typed email is a list of codes,
-- of which the ASCII letters are lowered. A call that awaits runs to its end before the next begins.
--
-- Not modelled: operations, the admin's status pages, the gateway with the messages to sockets,
-- controllers and configuration, which are wiring to libraries; the client; the tick's guard
-- against a failed injection, and the sampled curve data of the admin view.

pub mod Base
pub mod Events
pub mod Currency
pub mod Market
pub mod Contracts
pub mod Needs
pub mod Lifecycle
pub mod Simulation
pub mod Family
pub mod World
pub mod Travel
pub mod Health
pub mod Tick
pub mod BotDetection
pub mod Accounts
pub mod Characters
pub mod Random
pub mod Wheels
pub mod Birth
pub mod Stats
pub mod Traits
pub mod Dashboards
pub mod Progression
pub mod Moderation
pub mod Actions
pub mod Routines
