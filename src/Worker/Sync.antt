-- ===== src/Worker/Sync.antt =====
-- internal/worker/worker.go: `process`, `syncCalendar` and `EnqueueSmartBlocksForCalendar`;
-- internal/calendar/client.go: `IncrementalSync`.
pub mod Pages
pub mod Token
use skulid.Base.{
  ℕ, zero, suc, Bool, true, false, not, ◌&&◌, ◌||◌, List, [], ◌∷◌, ◌++◌, Option, none, some, ◌==◌,
  if◌then◌else◌, Text, is_nil,
}
use skulid.Sync.Outside.{
  google_failed, no_client, Result, ok, err, M, pure, or_fail, ignore, ◌>>=◌, ◌>>◌, Outside,
}
use skulid.Sync.Event.{Event, Calendar}
use skulid.Sync.Filter.{Runtime}
use skulid.Sync.Desk.{SmartBlock}
use skulid.Sync.Engine.{HoursOf, process_change}
use skulid.Sync.Engine.Store.{World, find_calendar, get_client}
use skulid.Worker.Queue.{Job, debounce}
use skulid.Worker.Site.{
  SyncToken, Site, find_token, token_of, ensure_token, put_sync_token, tick, lift, ask, read, write,
}

-- A page of events, with the token of the next page and the one of the next sync; or that the sync
-- token is gone (410), or another failure.
pub data Page : Type 0 where
  page : List Event → Text → Text → Page
  gone failed : Page

pub data SyncAnswer : Type 0 where
  synced : List Event → Text → SyncAnswer
  token_invalid sync_failed : SyncAnswer

abbrev before_rest : List Event → SyncAnswer → SyncAnswer
before_rest items (synced events next) = synced (items ++ events) next
before_rest items token_invalid = token_invalid
before_rest items sync_failed = sync_failed

-- What `IncrementalSync` makes of a page, with the rest of the loop by the token of the next page.
abbrev pub after_page : Page → (Text → SyncAnswer) → SyncAnswer
after_page gone rest = token_invalid
after_page failed rest = sync_failed
after_page (page items next_page next_sync) rest =
    if not (is_nil next_page) then before_rest items (rest next_page) else synced items next_sync

-- The loop of `IncrementalSync`: `page_of` is what Google answers to a request with a page token, and
-- the first request has none. The source has no bound on the rounds.
unfoldable pub read_pages : ℕ → (Text → Page) → Text → SyncAnswer
read_pages zero page_of page_token = sync_failed
read_pages (suc rounds) page_of page_token =
    after_page (page_of page_token) (λ next_page. read_pages rounds page_of next_page)

-- What Google answers at a step to a request with a sync token and a page token, and the most pages
-- of a sync.
pub record Paging : Type 0 where
  pub rounds : ℕ
  pub page_of : ℕ → Text → Text → Page

unfoldable pub has_source : ℕ → List ℕ → Bool
has_source id [] = false
has_source id (s ∷ sources) = s == id || has_source id sources

-- `ListBySourceCalendar`.
unfoldable pub blocks_on : ℕ → List SmartBlock → List SmartBlock
blocks_on id [] = []
blocks_on id (b ∷ bs) =
    let rest = blocks_on id bs in
    if b.enabled && has_source id b.source_calendar_ids then b ∷ rest else rest

unfoldable pub debounce_blocks : List SmartBlock → ℕ → Site → Site
debounce_blocks [] now s = s
debounce_blocks (b ∷ bs) now s =
    debounce_blocks bs now (record s { block_timers = debounce b.id now s.block_timers })

-- `ListEnabledByAccount`.
unfoldable pub enabled_on : ℕ → List Calendar → List Calendar
enabled_on account_id [] = []
enabled_on account_id (c ∷ cs) =
    let rest = enabled_on account_id cs in
    if c.account_id == account_id && c.enabled then c ∷ rest else rest

-- `now` is the instant of a step.
module _ (out : Outside) (go : Runtime) (hours_of : HoursOf) (pages : Paging) (now : ℕ → ℕ) where
  abbrev answer_of : SyncAnswer → Site → Result (List Event × Text) × Site
  answer_of (synced events next) s = (ok (events, next), tick s)
  answer_of token_invalid s = (err google_failed, tick s)
  answer_of sync_failed s = (err google_failed, tick s)

  -- The second sync of `syncCalendar`, without a token.
  unfoldable pub full_sync : M Site (List Event × Text)
  full_sync s = answer_of (read_pages pages.rounds (pages.page_of s.world.tick []) []) s

  abbrev retry_invalid : SyncAnswer → Site → Result (List Event × Text) × Site
  retry_invalid (synced events next) s = (ok (events, next), tick s)
  retry_invalid token_invalid s = full_sync (tick s)
  retry_invalid sync_failed s = (err google_failed, tick s)

  unfoldable pub sync_from : Text → M Site (List Event × Text)
  sync_from token s =
      retry_invalid (read_pages pages.rounds (pages.page_of s.world.tick token) []) s

  -- The loop over the events; an error is logged.
  pub process_events : ℕ → List Event → M Site (Unit {0})
  process_events calendar_id [] = pure tt
  process_events calendar_id (ev ∷ events) = do
    ignore (lift (process_change out go hours_of calendar_id ev))
    process_events calendar_id events

  unfoldable pub update_sync_token : Calendar → Text → M Site (Unit {0})
  update_sync_token cal token = write out (λ s. record s {
    tokens = put_sync_token cal.account_id cal.id token (now s.world.tick) s.tokens;
  })

  unfoldable pub mark_synced : ℕ → M Site (Unit {0})
  mark_synced calendar_id = write out (λ s. record s { marks = calendar_id ∷ s.marks })

  -- `EnqueueSmartBlocksForCalendar`, which logs an error.
  unfoldable pub enqueue_smart_blocks : ℕ → M Site (Unit {0})
  enqueue_smart_blocks calendar_id =
      ignore
        (write out (λ s. debounce_blocks (blocks_on calendar_id s.blocks) (now s.world.tick) s))

  unfoldable pub enqueue_buffers : ℕ → M Site (Unit {0})
  enqueue_buffers calendar_id s =
      (ok tt, record s { buffer_timers = debounce calendar_id (now s.world.tick) s.buffer_timers })

  -- What follows the events.
  pub finish_sync : Calendar → Text → Text → M Site (Unit {0})
  finish_sync cal token next = do
    ignore (update_sync_token cal (if not (is_nil next) then next else token))
    ignore (mark_synced cal.id)
    enqueue_smart_blocks cal.id
    enqueue_buffers cal.id

  pub sync_calendar : Calendar → M Site (Unit {0})
  sync_calendar cal = do
    write out (λ s. record s { tokens = ensure_token cal.account_id cal.id s.tokens })
    tok ← read out (λ s. some (find_token cal.account_id cal.id s.tokens))
    res ← sync_from (token_of tok)
    process_events cal.id res.0
    finish_sync cal (token_of tok) res.1

  -- The loop of `process`; an error is logged.
  pub sync_each : List Calendar → M Site (Unit {0})
  sync_each [] = pure tt
  sync_each (cal ∷ cals) = do ignore (sync_calendar cal); sync_each cals

  pub process_one : Calendar → M Site (Unit {0})
  process_one cal =
      if not cal.enabled then pure tt else lift (get_client out) >> sync_each (cal ∷ [])

  pub process_account : ℕ → M Site (Unit {0})
  process_account account_id = do
    cals ← read out (λ s. some (enabled_on account_id s.world.calendars))
    lift (get_client out)
    sync_each cals

  pub process : Job → M Site (Unit {0})
  process j =
      if not (j.calendar_id == 0)
      then read out (λ s. find_calendar j.calendar_id s.world.calendars) >>= process_one
      else process_account j.account_id
