-- ===== src/Lib.antt =====
-- AssetFlow, the API of an IT asset register (apps/api): its services that move assets between
-- statuses and holders, over one relational database.
--
-- Store models the database: apps/api/prisma/schema.prisma gives the enumerations (Store/Enums),
-- the rows (Store/Rows, Store/DisposalRows), and the migrations the CHECK and the unique keys that
-- the writes of Store/Tables respect. Store/Exceptions lists what a service throws, one constructor
-- for a message. `Db` is the state that the requests change; `Env` is what a request finds besides:
-- the clock, the random part of a document number, and the reference tables, which these services
-- read only. Identifiers are numbers, `next_id` being the next one that the database gives out; a
-- text is the list of its UTF-16 units; money is counted in whole units.
--
-- Lifecycle is apps/api/src/modules/lifecycle: Rules is lifecycle.rules.ts, the other files are
-- the methods of LifecycleService in the order of lifecycle.service.ts (Guards: the private
-- checks; Issue: issueTerms, issue, assign; Batch: assignMany; Recall: returnAsset; Relocation:
-- transfer; Repair: openMaintenance, completeMaintenance), and Calls the requests of its
-- controller. Custody, Diagram and Outcomes state what the requests keep and do: Diagram/Requests
-- gives the arrows of each request and Diagram/Stories the histories, Outcomes/Lots a batch.
--
-- Disposals is apps/api/src/modules/disposals: Rules is disposals.rules.ts, Guards the private
-- helpers of DisposalsService, Drafting, Approval, Execution and Removal its methods, Calls the
-- requests. Moves gives the moves of a case as a relation; Loops, Effects, Settling, Drafts and
-- Steps are about one request, Soundness, Booking and Histories about histories, Outcomes about the
-- assets of a case, Stranding about the deletion of a case. Disposals reads and writes the assets
-- that Lifecycle writes.
--
-- Incidents is apps/api/src/modules/incidents: Rules is incidents.rules.ts, Desk the tables and
-- the private helpers of IncidentsService, Intake its method create, Revision update, Progress
-- changeStatus and addActivity, Removal remove, Calls the requests of the controller. The tables
-- of incidents have a state of their own, Desk, since no other service here writes them; a request
-- reads assets, users, departments and risks from Sources. Moves is the relation of what a request
-- does to one incident; Records, Ownership, Responsible, Owned and Staffing are about histories,
-- and Closing about single requests. The triggers that check who is responsible are in the model
-- by what they do: `validateReferences` has found the department that they set, and `update`
-- clears it with the person.
--
-- Inventory is apps/api/src/modules/inventory: Rules is inventory.rules.ts and the summary by
-- result, Guards the private helpers of InventoryService, Opening its method create, Scanning
-- scan, Ending close, cancel and remove, Calls the requests. The asset that a code finds is the
-- first by the latest identifier; the source leaves the order to the database. Changes is the
-- relation of what a request does to one session; Judging, Items, Sessions, Ended and Refinement
-- are about histories (Board and Refinement against an abstract count that the requests label),
-- Summary and Rescan about the counts and about repeated scans.
--
-- Netmon is apps/api/src/modules/netmon in part: Checks is `resolveCheck` and `sampleBucket`,
-- Addresses `ipToInt` and `intToIp`, and Ranges `parseCidr`, `hostAddresses` and `isInCidr` of
-- network.ts; Recording is the method `record` of netmon.poller.ts with the tables that it writes
-- for one device. Alerts and Samples are about histories of checks, Blocks and Hosts about ranges.
-- A bit mask of a range is written as division by the size of its blocks.
--
-- Renewals is apps/api/src/modules/renewals in part: Rows the tables of licences and their seats,
-- with a state of their own, Seats the methods assign and revoke of RenewalsService, Histories
-- both requests.
--
-- Risks is apps/api/src/modules/risks in part: Criteria is the matrix of risk-criteria.ts and the
-- score of risks.rules.ts, Weights is about both.
--
-- A method is a function from the tables to a result or an exception. It runs in one database
-- transaction, so a request that throws leaves the tables as they were, and requests run one after
-- the other: transactions that the source runs at the isolation level Serializable are equivalent
-- to some such order, and the model takes this for the others too. Each loop recurses on a list.
-- The printing of a number alone uses fuel: n + 1 rounds for n, and a digit takes one.
--
-- Not modelled: the queries that only read, the validation of request bodies by class-validator
-- but for the length and the distinctness of a batch, the wording of messages, the probing of the
-- network, a clock that runs backwards (the CHECK that an assignment of an incident is not
-- released before it was made would refuse it), the other services of the API, the web interface
-- (apps/web), the agent (apps/agent).
pub mod Prelude
pub mod Store
pub mod Lifecycle
pub mod Disposals
pub mod Incidents
pub mod Inventory
pub mod Netmon
pub mod Risks
pub mod Tests
pub mod Renewals
