-- ===== src/Worker/Sync/Token.antt =====
-- The sync token after a sync.
use skulid.Base.{ℕ, suc, ◌≡◌, refl, true, not, List, [], ◌∷◌, if◌then◌else◌, Text, is_nil, arith}
use skulid.Sync.Outside.{ok, ◌>>=◌, ◌>>◌, or_fail, ignore, Outside}
use skulid.Sync.Event.{Event, Calendar}
use skulid.Sync.Filter.{Runtime}
use skulid.Sync.Engine.{HoursOf}
use skulid.Sync.Desk.{SmartBlock}
use skulid.Worker.Site.{
  SyncToken, Site, find_token, token_of, ensure_token, put_sync_token, tick, lift, ask, read, write,
}
use skulid.Worker.Sync.{
  Paging, debounce_blocks, sync_from, process_events, update_sync_token, mark_synced,
  enqueue_smart_blocks, enqueue_buffers, finish_sync, sync_calendar,
}

-- The token that a calendar's row holds, empty where it has no row.
abbrev pub stored_token : Calendar → List SyncToken → Text
stored_token cal ts = token_of (find_token cal.account_id cal.id ts)

stored_token-put :
    (cal : Calendar) (token : Text) (now : ℕ) (ts : List SyncToken)
    → stored_token cal (put_sync_token cal.account_id cal.id token now ts) ≡ token
unfolding find_token put_sync_token
stored_token-put cal token now [] = ground arith
stored_token-put cal token now (t ∷ ts) = ground (arith, stored_token-put cal token now ts)

stored_token-ensure :
    (cal : Calendar) (ts : List SyncToken)
    → stored_token cal (ensure_token cal.account_id cal.id ts) ≡ stored_token cal ts
unfolding find_token ensure_token
stored_token-ensure cal [] = ground arith
stored_token-ensure cal (t ∷ ts) = ground (arith, stored_token-ensure cal ts)

debounce_blocks-tokens :
    (bs : List SmartBlock) (now : ℕ) (s : Site) → (debounce_blocks bs now s).tokens ≡ s.tokens
unfolding debounce_blocks
debounce_blocks-tokens [] now s = refl
debounce_blocks-tokens (b ∷ bs) now s = debounce_blocks-tokens bs now _

module _ (out : Outside) (go : Runtime) (hours_of : HoursOf) (pages : Paging) (now : ℕ → ℕ) where
  process_events_ok :
      (id : ℕ) (events : List Event) (s : Site)
      → ((process_events out go hours_of pages now id events s).0 ≡ ok tt)
        × ((process_events out go hours_of pages now id events s).1.tokens ≡ s.tokens)
  unfolding process_events lift ignore ◌>>◌ ◌>>=◌
  process_events_ok id [] s = (refl, refl)
  process_events_ok id (ev ∷ events) s = process_events_ok id events _

  finish_sync_ok :
      (cal : Calendar) (token next : Text) (s : Site)
      → ((n : ℕ) → out.query_ok n ≡ true)
      → let after = finish_sync out go hours_of pages now cal token next s in
        (after.0 ≡ ok tt)
        × (stored_token cal after.1.tokens ≡ (if not (is_nil next) then next else token))
  unfolding finish_sync update_sync_token mark_synced enqueue_smart_blocks enqueue_buffers write ask
      ignore or_fail ◌>>◌ ◌>>=◌
  finish_sync_ok cal token next s q =
      rw (q s.world.tick, q (suc s.world.tick), q (suc (suc s.world.tick)))
        (
          refl,
          rw (debounce_blocks-tokens _ _ _) (
              stored_token-put cal (if not (is_nil next) then next else token) (now s.world.tick)
                s.tokens),
        )

  -- The state of a sync once the token is read.
  abbrev pub token_read : Calendar → Site → Site
  token_read cal s = tick (tick (record s { tokens = ensure_token cal.account_id cal.id s.tokens }))

  -- The rest of a sync, from its call on.
  synced_ok :
      (cal : Calendar) (token : Text) (events : List Event) (next : Text) (s : Site)
      → ((n : ℕ) → out.query_ok n ≡ true)
      → (sync_from out go hours_of pages now token s).0 ≡ ok (events, next)
      → let after =
          (sync_from out go hours_of pages now token >>= λ res.
          process_events out go hours_of pages now cal.id res.0
          >> finish_sync out go hours_of pages now cal token res.1)
            s in
        (after.0 ≡ ok tt)
        × (stored_token cal after.1.tokens ≡ (if not (is_nil next) then next else token))
  unfolding ◌>>◌ ◌>>=◌
  synced_ok cal token events next s q h =
      let s' = (sync_from out go hours_of pages now token s).1 in
      let run = process_events_ok cal.id events s' in
      rw (h, run.0) (finish_sync_ok cal token next _ q)

  -- Where the database answers and Google answers the sync from the token that is stored, also where
  -- it takes the second attempt without a token, the sync of a calendar succeeds. The token stored
  -- afterwards is the one that Google returned, whatever the handling of the events ended with, and
  -- where Google returned none it is the token stored before, also if Google had refused that token.
  pub sync_calendar_token :
      (cal : Calendar) (events : List Event) (next : Text) (s : Site)
      → ((n : ℕ) → out.query_ok n ≡ true)
      → (sync_from out go hours_of pages now (stored_token cal s.tokens) (token_read cal s)).0
        ≡ ok (events, next)
      → let after = sync_calendar out go hours_of pages now cal s in
        (after.0 ≡ ok tt)
        × (stored_token cal after.1.tokens
            ≡ (if not (is_nil next) then next else stored_token cal s.tokens))
  unfolding sync_calendar write read ask or_fail ◌>>◌ ◌>>=◌
  sync_calendar_token cal events next s q h =
      let same = stored_token-ensure cal s.tokens in
      rw (q s.world.tick, q (suc s.world.tick), same)
        (synced_ok cal (stored_token cal s.tokens) events next (token_read cal s) q h)
