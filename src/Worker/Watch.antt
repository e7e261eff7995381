-- ===== src/Worker/Watch.antt =====
-- internal/worker/worker.go: `RegisterWatch`; internal/webhook/google.go: `ServeHTTP`. What
-- `randomHex` gives and what Google answers to `Watch` are given by the step.
pub mod Laws
use skulid.Base.{
  ℕ, suc, ◌+◌, ◌*◌, Bool, true, false, not, ◌&&◌, ◌||◌, List, [], ◌∷◌, ◌++◌, Option, none, some,
  ◌==◌, if◌then◌else◌, Text, codes, text_eq, is_nil,
}
use skulid.Sync.Outside.{
  google_failed, no_client, no_row, Error, Result, ok, err, M, pure, or_fail, ignore, ◌>>=◌, ◌>>◌,
  Outside,
}
use skulid.Sync.Event.{Calendar}
use skulid.Sync.Engine.Store.{find_calendar, get_client}
use skulid.Worker.Queue.{enqueue_calendar}
use skulid.Worker.Site.{
  SyncToken, ChannelCall, stop_channel, watch, Site, find_token, ensure_token, put_watch,
  find_channel, tick, lift, ask, read, write,
}

-- `expiration` is 0 where Google names none, and an instant otherwise.
pub record Channel : Type 0 where
  pub id : Text
  pub resource_id : Text
  pub expiration : ℕ

-- A notification's headers.
pub record Notice : Type 0 where
  pub channel_id : Text
  pub resource_id : Text
  pub resource_state : Text
  pub channel_token : Text

-- Seven days.
abbrev pub channel_ttl : ℕ
channel_ttl = 604800000000000

module _ (out : Outside) (random : ℕ → Text) (channels : ℕ → Option Channel) (now : ℕ → ℕ) where
  unfoldable pub stop_prior : Text → Text → M Site (Unit {0})
  stop_prior channel resource s =
      (ok tt, tick (record s { channel_calls = stop_channel channel resource ∷ s.channel_calls }))

  -- Where there is a channel, it is stopped; an error is ignored.
  unfoldable pub stop_watch : Option SyncToken → M Site (Unit {0})
  stop_watch none = pure tt
  stop_watch (some prior) =
      if is_nil prior.watch_channel_id
      then pure tt
      else stop_prior prior.watch_channel_id prior.watch_resource_id

  unfoldable pub clear_watch : ℕ → ℕ → M Site (Unit {0})
  clear_watch account_id calendar_id =
      write out (λ s. record s { tokens = put_watch account_id calendar_id [] [] [] none s.tokens })

  pub drop_watch : ℕ → ℕ → Option SyncToken → M Site (Unit {0})
  drop_watch account_id calendar_id none = pure tt
  drop_watch account_id calendar_id (some prior) =
      if is_nil prior.watch_channel_id then pure tt else do
        stop_prior prior.watch_channel_id prior.watch_resource_id
        ignore (clear_watch account_id calendar_id)

  unfoldable pub open_channel : Text → Text → Text → Text → M Site Channel
  open_channel cal id address secret s =
      or_fail google_failed (channels s.world.tick)
        (tick (record s { channel_calls = watch cal id address secret ∷ s.channel_calls }))

  unfoldable pub update_watch : ℕ → ℕ → Channel → Text → M Site (Unit {0})
  update_watch account_id calendar_id ch secret = write out (λ s. record s {
    tokens =
        put_watch account_id calendar_id ch.id ch.resource_id secret
          (some (if ch.expiration == 0 then now s.world.tick + channel_ttl else ch.expiration))
          s.tokens;
  })

  unfoldable pub draw : M Site (Text × Text)
  draw s = (ok (random s.world.tick, random (suc s.world.tick)), tick (tick s))

  -- From the new channel on: `channelID` and `tokenSecret` are two draws.
  pub start_watch : ℕ → ℕ → Calendar → Text → M Site (Unit {0})
  start_watch account_id calendar_id cal address = do
    write out (λ s. record s { tokens = ensure_token account_id calendar_id s.tokens })
    draws ← draw
    ch ← open_channel cal.google_calendar_id draws.0 address draws.1
    update_watch account_id calendar_id ch draws.1

  -- An error of the read of the row counts as no row.
  abbrev or_none : Result (Option SyncToken) → Option SyncToken
  or_none (ok t) = t
  or_none (err x) = none

  unfoldable pub prior_token : ℕ → ℕ → M Site (Option SyncToken)
  prior_token account_id calendar_id s =
      let got = read out (λ v. some (find_token account_id calendar_id v.tokens)) s in
      (ok (or_none got.0), got.1)

  pub register_on : ℕ → ℕ → Calendar → Text → M Site (Unit {0})
  register_on account_id calendar_id cal address = do
    prior ← prior_token account_id calendar_id
    if not cal.enabled
        then drop_watch account_id calendar_id prior
        else (stop_watch prior >> start_watch account_id calendar_id cal address)

  pub register_watch : Text → ℕ → ℕ → M Site (Unit {0})
  register_watch external_url account_id calendar_id =
      if is_nil external_url then (λ s. (err google_failed, s)) else do
        cal ← read out (λ s. find_calendar calendar_id s.world.calendars)
        lift (get_client out)
        register_on account_id calendar_id cal (external_url ++ codes "/api/webhooks/google")

  -- The status of the answer, and the state after it.
  abbrev accept : Notice → SyncToken → Site → ℕ × Site
  accept n tok s =
      if not (is_nil tok.watch_token_secret) && not (text_eq tok.watch_token_secret n.channel_token)
      then (401, s)
      else if not (text_eq n.resource_state (codes "sync"))
      then (200, record s { workers = enqueue_calendar tok.account_id tok.calendar_id s.workers })
      else (200, s)

  abbrev answer : Notice → Result (Option SyncToken) → Site → ℕ × Site
  answer n (err x) s = (500, s)
  answer n (ok none) s = (200, s)
  answer n (ok (some tok)) s = accept n tok s

  unfoldable pub serve_http : Notice → Site → ℕ × Site
  serve_http n s =
      if is_nil n.channel_id
      then (400, s)
      else (let got = read out (λ v. some (find_channel n.channel_id v.tokens)) s in
          answer n got.0 got.1)
