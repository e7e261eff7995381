-- ===== src/Worker/Site.antt =====
-- The state of the worker: the world of the rule engine, the rows of sync_token
-- (internal/db/sync_tokens.go), the queues and the timers; and the steps on them.
use skulid.Base.{
  ℕ, suc, Bool, ◌&&◌, List, [], ◌∷◌, Option, none, some, ◌==◌, if◌then◌else◌, Text, text_eq,
}
use skulid.Sync.Outside.{query_failed, no_row, err, M, or_fail, Outside}
use skulid.Sync.Desk.{SmartBlock}
use skulid.Sync.Engine.Store.{World}
use skulid.Worker.Queue.{Job, Timer}

pub record SyncToken : Type 0 where
  pub account_id : ℕ
  pub calendar_id : ℕ
  pub sync_token : Text
  pub watch_channel_id : Text
  pub watch_resource_id : Text
  pub watch_token_secret : Text
  pub watch_expires_at : Option ℕ
  pub last_polled_at : Option ℕ

-- `StopChannel` and `Watch`.
pub data ChannelCall : Type 0 where
  stop_channel : Text → Text → ChannelCall
  watch : Text → Text → Text → Text → ChannelCall

-- `marks` are the calendars that were marked as synced, newest first, and `channel_calls` the calls
-- on channels, newest first.
pub record Site : Type 0 where
  pub world : World
  pub tokens : List SyncToken
  pub blocks : List SmartBlock
  pub workers : List (ℕ × List Job)
  pub block_timers : List Timer
  pub buffer_timers : List Timer
  pub marks : List ℕ
  pub channel_calls : List ChannelCall

abbrev pub is_for : ℕ → ℕ → SyncToken → Bool
is_for account_id calendar_id t = t.account_id == account_id && t.calendar_id == calendar_id

unfoldable pub find_token : ℕ → ℕ → List SyncToken → Option SyncToken
find_token account_id calendar_id [] = none
find_token account_id calendar_id (t ∷ ts) =
    if is_for account_id calendar_id t then some t else find_token account_id calendar_id ts

-- Empty where there is no row.
abbrev pub token_of : Option SyncToken → Text
token_of none = []
token_of (some t) = t.sync_token

abbrev pub new_token : ℕ → ℕ → SyncToken
new_token account_id calendar_id = record {
  account_id = account_id;
  calendar_id = calendar_id;
  sync_token = [];
  watch_channel_id = [];
  watch_resource_id = [];
  watch_token_secret = [];
  watch_expires_at = none;
  last_polled_at = none;
}

-- `Ensure`.
unfoldable pub ensure_token : ℕ → ℕ → List SyncToken → List SyncToken
ensure_token account_id calendar_id [] = new_token account_id calendar_id ∷ []
ensure_token account_id calendar_id (t ∷ ts) =
    if is_for account_id calendar_id t then t ∷ ts else t ∷ ensure_token account_id calendar_id ts

-- `UpdateSyncToken`, at an instant.
unfoldable pub put_sync_token : ℕ → ℕ → Text → ℕ → List SyncToken → List SyncToken
put_sync_token account_id calendar_id token now [] =
    record (new_token account_id calendar_id) { sync_token = token; last_polled_at = some now } ∷ []
put_sync_token account_id calendar_id token now (t ∷ ts) =
    if is_for account_id calendar_id t
    then record t { sync_token = token; last_polled_at = some now } ∷ ts
    else t ∷ put_sync_token account_id calendar_id token now ts

-- `UpdateWatch`; `ClearWatch` is the same with empty texts and no expiry.
unfoldable pub put_watch : ℕ → ℕ → Text → Text → Text → Option ℕ → List SyncToken → List SyncToken
put_watch account_id calendar_id channel resource secret expires [] = []
put_watch account_id calendar_id channel resource secret expires (t ∷ ts) =
    (if is_for account_id calendar_id t
      then record t {
        watch_channel_id = channel;
        watch_resource_id = resource;
        watch_token_secret = secret;
        watch_expires_at = expires;
      }
      else t)
    ∷ put_watch account_id calendar_id channel resource secret expires ts

-- `FindByChannelID`.
unfoldable pub find_channel : Text → List SyncToken → Option SyncToken
find_channel channel [] = none
find_channel channel (t ∷ ts) =
    if text_eq t.watch_channel_id channel then some t else find_channel channel ts

abbrev pub tick : Site → Site
tick s = record s { world = record s.world { tick = suc s.world.tick } }

-- A step of the rule engine.
unfoldable pub lift : {A : Type 0} → M World A → M Site A
lift m s = ((m s.world).0, record s { world = (m s.world).1 })

module _ (out : Outside) where
  unfoldable pub ask : {A : Type 0} → (Site → Option A × Site) → M Site A
  ask run s =
      if out.query_ok s.world.tick
      then or_fail no_row (run s).0 (tick (run s).1)
      else (err query_failed, tick s)

  unfoldable pub read : {A : Type 0} → (Site → Option A) → M Site A
  read run = ask (λ s. (run s, s))

  unfoldable pub write : (Site → Site) → M Site (Unit {0})
  write run = ask (λ s. (some tt, run s))
