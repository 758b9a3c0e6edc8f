-- ===== src/Lib.antt =====
-- The browser page of SQL Server Lab: the scripts under Ui/ that talk to the local workflow server.
--
-- This development models the JavaScript of Ui/. A page script keeps a few variables and DOM
-- controls, sends requests to the server, checks every answer against a contract, and means not to
-- act on a late, malformed or unexpected answer. An asynchronous function is split where it waits;
-- what the network does is an argument, and what the user does between is a sequence of events.
--
--   Prelude.antt, Prelude/   shared names, Boolean tests on numbers, list searches
--   Js.antt                  values of JSON responses and controls; `shape`, `===`, `typeof` tests
--   Js/Patterns.antt         the anchored regular expressions of Ui/
--   Js/Coerce.antt           what a pattern test makes of a value that is no text
--   Js/Maps.antt             Map and plain objects as dictionaries, with their laws
--   Session.antt, Session/   the interface of a dialog that numbers its requests, its runs, and the
--                            law that what such a dialog shows fits; Collations, Evaluations,
--                            Runtimes, Sessions, Slots, Qualification, Relations and Cms fill it
--   Jobs.antt, Jobs/         Ui/app.js: the submission of actions and the table of jobs
--     Identity               canonicalSubmission, nonSecretSubmissionIdentity
--     Command                readUiJobResponse, submitUiCommandBody
--     Board                  renderJobs (its state), refreshJobs, submitUiAction; Polls and Own are
--                            about what a poll makes of the server's jobs and of the page's own
--   Builds.antt, Builds/     Ui/app.js: actionsFor, cleanupActionFor, acceptanceActions, statusClass
--   Groups.antt, Groups/     Ui/environment-groups.js: validView; Cards is render, Dialog is
--                            readGroups, requestGroupCommand and the event handlers; Late is about
--                            answers that come late
--   Llama.antt, Llama/       Ui/llama-start.js (Start) and Ui/llama-start-plan.js (Plan): the inputs,
--                            the contracts of the answers, the dialogs and the event handlers
--   Cms.antt                 Ui/app.js: the inspection of the central management server
--   Collations.antt          Ui/collation-catalog.js
--   Evaluations.antt         Ui/evaluation-refresh-plan.js: the contracts, and Dialog
--   Runtimes.antt            Ui/external-runtime-capability.js: the contracts, Dialog, and Asking, which
--                            is about its requests
--   Sessions.antt            Ui/app.js: the dialog that stops llama.cpp sessions; Awaited is about a
--                            stop that waits for its answer
--   Slots.antt               Ui/app.js: the slot reserve; Asking is about its requests, Runs about the
--                            previews that the server keeps for it
--   Dates.antt               Ui/app.js: dateToGerman, parseGermanDate
--   Qualification.antt       Ui/tls-live-qualification.js: the contract; Polling, the polls of a check,
--                            of which the source allows 300; Page, the state of the page
--   Relations.antt           Ui/component-relations.js: the contracts; Draft and Sound, what is proposed;
--                            Dialog and Asking, the dialog and its requests
--   Transport.antt           Ui/operator-transport.js; URL and Headers of the browser are
--                            parameters; Addresses is about the tests of the addresses
--   Overrides.antt           Ui/app.js: the overrides of media sources
--   Watch.antt               Ui/app.js: the watch of resources
--   Passwords.antt           Ui/app.js: generateHyperVGuestPassword; 32 turns of its loop are enough,
--                            since every turn adds a character
--   Previews.antt, Previews/ Ui/container-port-preview.js (Port), Ui/container-autostart-preview.js
--                            (AutoStart), and the dialog that both have (Dialog)
--   Removal.antt, Removal/   Ui/run-artifact-removal.js: validPreview and the other contracts;
--                            Dialog is controls, invalidate, request and the event handlers; Late is
--                            about answers that come late
--
-- Numbers are natural numbers; a JSON number that is negative or not an integer is a value of its
-- own. Texts are compared whole or walked by code points. What the browser provides (Date, URL,
-- Headers, the random numbers, Number() of a text, the text that an input shows of a value) is a
-- parameter. The loop over the polls of a live check has the counter of the source, which ends it
-- after 300 requests; the turns of the model are bounded by fuel beside it, of which 301 are enough.
-- Each of these requests is taken to be answered in the end. A number is written with room for 21
-- digits, since JavaScript writes larger ones otherwise.
--
-- Not modelled: HTML and texts that are only written; of Ui/app.js the catalogue of commands, the
-- lists of media, labs and connections, the initial setup, test groups, maintenance and the
-- installation of llama.cpp; Ui/host-capability-matrix.js, Ui/tls-authenticated-creation.js and
-- Ui/sql-connection-clipboard.js; and the PowerShell part of the repository.
pub mod Prelude
pub mod Js
pub mod Builds
pub mod Cms
pub mod Collations
pub mod Dates
pub mod Evaluations
pub mod Groups
pub mod Jobs
pub mod Llama
pub mod Overrides
pub mod Passwords
pub mod Previews
pub mod Qualification
pub mod Relations
pub mod Removal
pub mod Runtimes
pub mod Session
pub mod Sessions
pub mod Slots
pub mod Transport
pub mod Watch
