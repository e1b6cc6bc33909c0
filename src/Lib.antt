-- ===== src/Lib.antt =====
-- The installation jobs of the Home Assistant integration `panel_assistant`, and what leads to a job:
-- the releases and the feed of builds, the network rules, the plan, and the panel's own answers.
--
-- The program installs an Android app on wall panels. Each installation is a job: a receipt that
-- names its target, its artifact and the phase that it has reached. `InstallJobManager` keeps the
-- receipts in one private JSON file and hands out claims, so that after a restart no step that may
-- have changed a panel is done twice. Every method takes the manager's lock, loads the file again,
-- checks the revision that its caller expects, and replaces the receipt by a verified save.
--
-- A job starts from a plan. `build_install_plan` binds a target that install_network.py has pinned, the
-- probe of the panel, and a release that release.py has fetched and authenticated or a build of the feed,
-- and `async_create_or_join` takes the plan after checks of its own.
--
-- The files, with the sources under custom_components/panel_assistant/:
-- - Prelude: shared names, Boolean tests on numbers, texts as lists of character codes, decimal numerals,
--   `Option` as code with one kind of error, and Raising for code with several.
-- - Value: JSON values and the tests on them. Platform: what the code calls and does not implement, as
--   the functions of one record, which every model takes as a parameter: URL splitting, IP addresses,
--   timestamps, SHA-256, JSON and ULIDs.
-- - Web: yarl's URLs, the replies of an HTTP session, JSON as release.py reads and writes it, and the RSA
--   check, again as the functions of one record.
-- - Client (client.py): Address has `PanelAddress` and `normalize_address`; Versions, Health and
--   Responses have the parsers of what a panel answers. Newer and Appended prove.
-- - Network (install_network.py): private addresses and host names. Ranges: their bounds. Target,
--   Resolver and Pin: the results of a resolver, the preferred address, a pin and its revalidation.
--   Pinning, Resolved and Pins prove.
-- - Release (release.py): Tags has the tag patterns and `artifact_identity_matches`; Kinds, that the
--   kinds of tags differ. Artifact, Descriptor and Metadata: the records and the parsers of signed
--   metadata. Session, Fetch and Resolve: the bounded fetch with its redirects, and the resolutions.
--   Proofs: Fetching, Requests and Authentic.
-- - BuildFeed (build_feed.py): Build, Feed, Fetch and Download; Codes, Proofs, Downloaded and Tagged.
-- - Catalog (release_catalog.py): Choices and Listing have the choices of what to install and how one is
--   resolved; Offered proves. The feed that was just read is an argument, as is `json.dumps`.
-- - Provisioning (provisioning.py): Lines, Packages and Facts parse the output of the panel's shell,
--   Probe has the commands and `async_probe_install_target`. Candidates, Scanned and Transcripts prove.
-- - Provisioning (provisioning_plan.py): Guidance parses the commissioning guidance of a panel; Allowlisted
--   and Presented prove.
-- - InstallPlan (install_plan.py): Outcome, TargetPart, ArtifactPart, `build_install_plan`; Proofs.
-- - InstallJobs (install_jobs.py):
--   - Phase: `InstallPhase`, `InstallResultCode` and the tables. Receipt: the dataclasses.
--   - Scalars, Parse, Invariants: the parsers and `_validate_receipt_invariants`.
--   - Document: the dictionary of jobs, `_parse_receipt`, `_parse_document`, `_serialize_document`,
--     `_parse_store_document`, `_validated_document_for_save`.
--   - Disk: `_store_presence` and `_read_durable_jobs`.
--   - World: the manager's fields, the disk, and how each awaited call will end (as it should, with an
--     error or with a cancellation, before or after its effect, with the caller cancelled or not). A
--     method is a function from a state to a result or an error and a state.
--   - Manager: `_reconcile_claims`, `_async_load_locked`, `_async_load_durable_locked`,
--     `_async_save_locked`, `_prune` and, in Operations, the public methods. Calls: any sequence of
--     these methods and of restarts.
--   - Proofs: Graph on the table of phases; Guards on the invariants of the receipts that are written;
--     Post, Coherence, Saving and Stored carry the proofs on the methods in Transitions, Claiming,
--     Cancelling, Creating, Barriers, Refusals, Finality and Calls, with Claims and Rivals;
--     Loading on what a load has read, from any state; Entries, Documents and Durable on the file;
--     Ranks, Newest, Pruning, Kept and Retention on what pruning leaves; Printed, Parsed, Again and
--     RoundTrip on the documents of receipts.
-- - Tests: the models run on a small platform and a small web.
--
-- Conventions. A number is a natural number, as every number of the sources that is compared or stored
-- is one; a negative JSON number is kept and refused by the parsers. A set of phases is the list of its
-- members. A dictionary is an association list in its order of insertion. There is no fuel: every loop
-- goes over a list. The loop of a fetch goes over the replies, and a session whose replies have run out
-- waits until the time of the request is over. The endless loop that draws identifiers goes over a list
-- of draws, and `no_draw` says that the list has run out. The lock is the order of the calls. A saved
-- document is what the `store_file` of the platform makes of it, and the save is checked against what is
-- then read back. A state may hold a cache and a disk that differ, as after a write by someone else, and
-- the theorems that ask for a coherent one say so. Another writer may also act between the two snapshots
-- of `_async_load_durable_locked`; at other times only the method that runs writes the disk.
--
-- Not modelled: `async_get_install_job_manager`, logging, the file descriptors behind
-- `_read_durable_jobs`, the headers and timeouts of requests, the HTTP methods of the client, the
-- transport under the probe, and the other modules of the integration: the executor, ADB, artifacts,
-- credentials, status, the fleet, updates, the config flow, the browser views and the frontend.
pub mod Prelude
pub mod Tests
pub mod Value
pub mod Web
pub mod Provisioning
pub mod InstallPlan
pub mod BuildFeed
pub mod Catalog
pub mod Platform
pub mod Client
pub mod Network
pub mod Release
pub mod InstallJobs
