-- ===== src/Lib.antt =====
-- skulid keeps Google calendars in step with each other and places tasks, habits and blocks of
-- focus time in the hours that are free. This library models its core in four parts.
--
-- The first part is the arithmetic of time, internal/hours. Hours/Window holds `Window` and its
-- tests, Hours/Merge is `Merge` and `MergeWithGap`, Hours/Subtract is `SubtractBusy`, Hours/Slots
-- is `FirstFitSlot` and `NearestFitSlot`, Hours/Chunks is `ChunkedSlots`, Hours/Ranges is the
-- spelling of clock times in ranges.go (`NormalizeRange`, `parseHM`), and Hours/Expand is
-- `ParseRange` and `Expand`. Every placement of the program goes through these functions, and so
-- does the working hours test of the rule engine.
--
-- The second part is internal/sync. Sync/Availability gives a calendar its hours and zone
-- (`EffectiveCalendarHours` of internal/db/calendars.go, with `Parse` in Hours/Stored),
-- Sync/Filter is filter.go, Sync/Transform is transform.go, and Sync/Engine is rule_engine.go:
-- `ProcessChange`, `applyRule` and `Backfill`, which read and write the rows of event_link and
-- sync_rule (Sync/Engine/Store, after internal/db/event_links.go and internal/db/rules.go) and
-- call Google (`Call`). Sync/Placement is the test of scheduler.go on a task's present blocks,
-- `placementHolds` with `placementAvail`, which the scheduler asks before it plans with
-- Hours/Chunks.
-- Sync/Buffers is buffers.go: `planBuffers`, and in Sync/Buffers/Recompute the diff of planned
-- buffers against the rows of buffer_event (internal/db/bufferevents.go), with the settings of
-- internal/db/buffers.go. Sync/Conflicts is conflicts.go.
--
-- The planning engines share one state, Sync/Desk: the rows that they read and write
-- (Sync/Desk/Rows for their statements, with the unique keys in Sync/Desk/Rows/Keys and a task's
-- list of blocks in Sync/Desk/Rows/View) and the steps that ask the database and Google.
-- Sync/Scheduler is scheduler.go: `busyEverywhere` with the padding of each calendar and the
-- windows that skulid wrote, Sync/Scheduler/Tasks is `PlaceTask` with `applyChunks` and
-- `unschedule`, and Sync/Scheduler/Habits is `PlaceHabit`. Sync/SmartBlocks is `Recompute` of
-- smart_block.go, with the rows counted by window in Sync/SmartBlocks/Bags and the loops in
-- Sync/SmartBlocks/Settle. Each is a chain of steps that may fail, cut where the source returns
-- early, so that a statement can speak of a part of it.
--
-- The third part is what starts the engines, internal/worker/worker.go and
-- internal/webhook/google.go: Worker/Queue holds the queues and the debounce timers, Worker/Site
-- the state with the rows of sync_token, Worker/Sync is `process` and `syncCalendar` with the
-- paging of `IncrementalSync`, Worker/Watch is `RegisterWatch` and the webhook's `ServeHTTP`, and
-- Worker/Maintenance runs the planning engines in any order.
--
-- The fourth part stands on its own: Category is internal/category/categorize.go, Retry is
-- internal/calendar/retry.go, which is below every call to Google, and Exclusion is
-- internal/ai/exclusion.go, which guards the accounts that the assistant may reach. Sync/Event has
-- the marks of managed events (internal/calendar/client.go), by which the engines know what they
-- wrote themselves. Planner is the layout of a day's events in internal/httpx/handlers_planner.go
-- (`assignEventLanes`), which the page calls on the events in the order of their starts; of an
-- event's fields only those that the layout reads or writes, and its title, are modelled.
--
-- How state and failure are modelled. A step of an engine is a function from the world to a result
-- and a world (Sync/Outside), and an early return with an error is the value `err`. The tables,
-- the audit log, the calls made to Google and the number of steps so far are the fields of
-- `World`. What the database and Google answer is a parameter, `Outside`, indexed by the number of
-- the step, so that a theorem that holds for every `Outside` holds for every pattern of failures.
-- Regular expressions, lower case and the reading of times are Go's, and a parameter (`Runtime`).
-- The decoded columns of a rule are fields, none where the column does not parse. The engine's
-- parameter `hours_of` stands for Sync.Availability's `working_hours_of` on the accounts and the
-- zone database.
--
-- Times are natural numbers of nanoseconds after an instant that precedes all others, and
-- durations are not negative, so that the source's `d <= 0` is `== 0`. Where the source subtracts
-- below an instant, the model moves the term to the other side. `planBuffers` subtracts the travel
-- time from an instant, and the travel time is taken to be less than the time since the first
-- instant. The calendar of a location is a record of functions (`Location`). Texts are lists of
-- code points.
--
-- Loops are structural recursion (the retries on the attempts that are left, four in all), except
-- two on fuel. The loop of `Expand` over the days has `to - from` rounds, which are enough where a
-- day is longer than no time (Hours.Expand.Coverage.expand_enough). The loop of `IncrementalSync`
-- over the pages of Google's answer has no bound in the source: its rounds are a parameter
-- (`Paging`), and more rounds than there are pages are enough (Worker.Sync.Pages.read_pages-
-- linked).
--
-- What is not modelled: the SQL of the repositories beyond the statements that the engines use,
-- the decoding of JSON, the web pages but for the planner's layout, the worker's goroutines and
-- tickers, the assistant, OAuth and encryption.
pub mod Base
pub mod Hours
pub mod Sync
pub mod Category
pub mod Exclusion
pub mod Planner
pub mod Retry
pub mod Worker
