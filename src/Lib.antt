-- ===== src/Lib.antt =====
-- logthing: a syslog server that finds connectivity incidents in router logs, reports them through an
-- outbox of notification jobs, and shows messages and incidents on a web page.
--
-- The parts. The server stores each message it receives in a file of its day and source
-- (internal/storage) and hands it to the incidents engine (internal/incidents/engine.go), which keeps a
-- tracker per host and interface, opens and resolves incidents when a change has lasted, and queues jobs;
-- a worker feeds the engine and sends the jobs. internal/api answers requests for messages through an
-- index of the files. The page (frontend/src/App.tsx) asks through frontend/src/api.ts, follows new
-- messages on an event stream, and shows the incidents of the engine.
--
-- Files and code.
--   Prelude           shared names, lists, maps as association lists, sorting, text and integers
--   Model             internal/model/message.go: Message
--   Realtime          internal/realtime/hub.go: Hub, Subscribe, Publish, PublishingStore.Append;
--                     Realtime.Laws is about one channel, Realtime.Served about the hub
--   Storage.Filter    internal/storage/text_filter.go, and the search text of file_store.go
--   Storage.Query     Query of internal/storage/query_index.go; Query.Merge and Query.Sorted are about
--                     its heap, Query.Loop about its loop, Query.Pages about its pages
--   Storage.Index     queryIndexes and scanIndex; Index.Lines and Index.Extend are about growing files
--   Storage.Reader    VisitAfter of internal/storage/append_reader.go; Reader.Bytes and Reader.Resumes
--                     are about growing files, Reader.Again about visits one after another
--   Storage.Partition sourceFilename of internal/storage/file_store.go; Partition.Safe is about it
--   Api.Query         parseMessagesQuery of internal/api/router.go; Query.Sent is about the browser's
--                     requests
--   Api.Messages      handleMessages; Messages.Pages joins browser, server and storage
--   Api.Incidents     handleIncidents and parsePagination; Incidents.Listed is about the browser's requests
--   Api.Import        internal/api/import.go; Import.Counted is about it
--   Incidents.Types   the data of engine.go: Config, Incident, NotificationJob, tracker, Snapshot
--   Incidents.Classify  classify, validRepeaterPrefix
--   Incidents.Jobs    enqueueLocked, enqueueFallbackEscalationLocked, primaryDownAtLocked,
--                     escalateFallbacksLocked
--   Incidents.Due     nextDueTrackerLocked; Due.Earliest has its theorem
--   Incidents.Advance advanceLocked; Advance.Settles is about its loop
--   Incidents.Observe observeLocked, incidentID, appendEvidence
--   Incidents.Service New, Load, Observe, Apply, Tick, List, Get, NotificationsFor,
--                     PendingNotifications, DueNotifications, MarkNotificationSent,
--                     MarkNotificationFailed, SetCursors, ReplaceSnapshot, saveLocked; Service.Outbox is
--                     about marked jobs, Service.Intact about loaded states, Service.Runs about
--                     sequences of calls
--   Incidents.Rebuild  Rebuild; Rebuild.Laws is about the jobs that it keeps, Rebuild.Consistent about
--                     trackers and incidents
--   Incidents.Worker  internal/incidents/worker.go: Notices (notificationFor, retryDelay and the types of
--                     internal/notification/notification.go), Dispatch (dispatch), Reconcile (reconcile,
--                     tick, recordError, Health); Drains, Reconcile.Order and Reconcile.Settles have
--                     theorems
--   Incidents.Consistent, Incidents.Kept  what the calls keep of the state and of the outbox
--   Frontend.Types    frontend/src/types.ts
--   Frontend.Api      frontend/src/api.ts: requests as values, and what each answer becomes
--   Frontend.Hosts, Frontend.Live, Frontend.Labels  host lists, the live list, and the texts of App.tsx
--   Frontend.App      the state of the component App, its handlers and effects; App.Step runs them
--   Frontend.Html     elements with attributes and handlers, as JSX makes them
--   Frontend.View     what App returns: Texts, Incidents, Toolbar and Messages; View.Allowed and
--                     View.Shown are about it
--   Tests             the theorems at concrete inputs
--
-- How state is modelled. `Snapshot` is the state of `Service`; each method is a function from the old
-- state to the new one and, where it stores the state, an optional error. The lock makes a method one
-- step, so a run of the service is a sequence of steps. Copies made to avoid sharing are not repeated.
-- Go maps are association lists whose order no theorem relies on. Times and durations are nanoseconds.
-- The page is one record, and what the user, the network and the clock do are actions on it.
--
-- Parameters. `Platform` holds SHA-256 with hexadecimal coding and time formatting; `save` is
-- `Persistence.Save`; `Outside` holds the worker's hash, the texts of durations, fmt's quoting and the
-- notifier, and
-- `visit` is the reader's `VisitAfter`; on the page `before_eq` is the order of `localeCompare`, which
-- is asked to be total and transitive where sorting needs it, and `date_parse` is `Date.parse`;
-- `Browser` holds what else the page takes from the browser. `TextTools` holds the functions of strings,
-- regexp and encoding/json that the text filter calls, `read` reads and decodes the line of an index
-- entry, `Coding` holds what the reader takes from encoding/json and crypto/sha256, `parse_time` is
-- `time.Parse`, `split_host_port` is `net.SplitHostPort`, and
-- `Outside` of Api.Import holds what the import takes from other packages and the store.
--
-- Fuel. `advance` has as fuel the number of trackers: each round leaves fewer trackers pending. The
-- loop of a query has one more than the number of entries in its heap: each round takes one out.
--
-- Not modelled: the loop and the channel that wake the worker, the syslog listener and sender, the
-- server's other requests, authentication, configuration, the Discord adapter, the file system
-- calls and their errors, the limit on a line of an import, the cancellation of a running query or
-- import, and the vendored Swagger UI.
pub mod Prelude
pub mod Model
pub mod Realtime
pub mod Storage
pub mod Api
pub mod Incidents
pub mod Frontend
pub mod Tests
