-- ===== src/Worker/Watch/Laws.antt =====
-- A notification is taken from the channel that was registered, and from no other.
use skulid.Base.{
  ℕ, suc, ◌≡◌, ◌⊎◌, inl, inr, refl, ap, ◌∙◌, true, false, not, ◌&&◌, ◌||◌, List, [], ◌∷◌, Option,
  none, some, Text, codes, text_eq, text_eq_refl, is_nil, arith, Bool-cases, Option-cases,
}
use skulid.Sync.Outside.{ok, ◌>>=◌, ◌>>◌, or_fail, Outside}
use skulid.Sync.Event.{Calendar}
use skulid.Worker.Queue.{enqueue_calendar}
use skulid.Worker.Site.{SyncToken, Site, ensure_token, put_watch, find_channel, ask, read, write}
use skulid.Worker.Watch.{Channel, Notice, open_channel, update_watch, draw, start_watch, serve_http}

-- Whose sync a notification on a row queues, and the row's secret.
abbrev route : Option SyncToken → Option (ℕ × ℕ × Text)
route none = none
route (some t) = some (t.account_id, t.calendar_id, t.watch_token_secret)

route-put_watch :
    (account_id calendar_id : ℕ) (ch : Channel) (secret : Text) (expires : Option ℕ)
    (ts : List SyncToken)
    → find_channel ch.id ts ≡ none
    → route (
        find_channel ch.id (
          put_watch account_id calendar_id ch.id ch.resource_id secret expires
            (ensure_token account_id calendar_id ts)))
      ≡ some (account_id, calendar_id, secret)
unfolding find_channel put_watch ensure_token
route-put_watch account_id calendar_id ch secret expires [] h = ground (arith, text_eq_refl ch.id)
route-put_watch account_id calendar_id ch secret expires (t ∷ ts) h =
    ground (arith, text_eq_refl ch.id, route-put_watch account_id calendar_id ch secret expires ts)

route-some :
    (found : Option SyncToken) (account_id calendar_id : ℕ) (secret : Text)
    → route found ≡ some (account_id, calendar_id, secret)
    → (tok : SyncToken) × (found ≡ some tok)
      × (tok.account_id ≡ account_id)
      × (tok.calendar_id ≡ calendar_id)
      × (tok.watch_token_secret ≡ secret)
route-some none account_id calendar_id secret h = cc
route-some (some t) account_id calendar_id secret h = (t, refl, cc, cc, cc)

module _ (out : Outside) (random : ℕ → Text) (channels : ℕ → Option Channel) (now : ℕ → ℕ) where
  -- A row whose channel and secret the notification names.
  abbrev pub IsFrom : Notice → SyncToken → Type 0
  IsFrom n tok =
      (is_nil tok.watch_token_secret || text_eq tok.watch_token_secret n.channel_token) ≡ true

  -- A notification leaves the queues as they are, or it names the channel of a row of sync_token and
  -- either its secret or a row without a secret, and a sync of that row's calendar is queued.
  pub serve_http_authentic :
      (n : Notice) (s : Site)
      → ((serve_http out random channels now n s).1.workers ≡ s.workers)
        ⊎ ((tok : SyncToken) × (find_channel n.channel_id s.tokens ≡ some tok)
            × IsFrom n tok
            × ((serve_http out random channels now n s).0 ≡ 200)
            × ((serve_http out random channels now n s).1.workers
                ≡ enqueue_calendar tok.account_id tok.calendar_id s.workers))
  unfolding serve_http read ask or_fail
  serve_http_authentic n s = elim (Option-cases (find_channel n.channel_id s.tokens)) [
    | inl e ↦ rw e (inl (ground arith))
    | inr (tok, e) ↦
        elim (Bool-cases (
          out.query_ok s.world.tick
          && not (is_nil n.channel_id)
          && (is_nil tok.watch_token_secret || text_eq tok.watch_token_secret n.channel_token)
          && not (text_eq n.resource_state (codes "sync")))) [
            | inl t ↦ inr (tok, e, ground arith, rw e (ground arith), rw e (ground arith))
            | inr f ↦ inl (rw e (ground arith))
          ]
  ]

  start_watch-route :
      (account_id calendar_id : ℕ) (cal : Calendar) (address : Text) (ch : Channel) (s : Site)
      → ((n : ℕ) → out.query_ok n ≡ true)
      → ((n : ℕ) → channels n ≡ some ch)
      → find_channel ch.id s.tokens ≡ none
      → let after = start_watch out random channels now account_id calendar_id cal address s in
        (after.0 ≡ ok tt)
        × (after.1.workers ≡ s.workers)
        × (route (find_channel ch.id after.1.tokens)
            ≡ some (account_id, calendar_id, random (suc (suc s.world.tick))))
  unfolding start_watch draw open_channel update_watch write ask or_fail ◌>>◌ ◌>>=◌
  start_watch-route account_id calendar_id cal address ch s q c h =
      let n = s.world.tick in
      rw (q n, c (suc (suc (suc n))), q (suc (suc (suc (suc n)))))
        (refl, refl, route-put_watch account_id calendar_id ch _ _ s.tokens h)

  serve_http-route :
      (n : Notice) (account_id calendar_id : ℕ) (s : Site)
      → ((k : ℕ) → out.query_ok k ≡ true)
      → is_nil n.channel_id ≡ false
      → text_eq n.resource_state (codes "sync") ≡ false
      → route (find_channel n.channel_id s.tokens) ≡ some (account_id, calendar_id, n.channel_token)
      → ((serve_http out random channels now n s).0 ≡ 200)
        × ((serve_http out random channels now n s).1.workers
            ≡ enqueue_calendar account_id calendar_id s.workers)
  unfolding serve_http read ask or_fail
  serve_http-route n account_id calendar_id s q m y r =
      let (tok, e, a, c, k) =
        route-some (find_channel n.channel_id s.tokens) account_id calendar_id n.channel_token r in
      let same : text_eq tok.watch_token_secret n.channel_token ≡ true =
        rw k (text_eq_refl n.channel_token) in
      rw (m, q s.world.tick, e, same, y, a, c) (ground arith)

  -- Where the database and Google answer, and no row had the new channel, the secret that a
  -- registration draws opens the door it made: a notification of a change that names the channel and
  -- that secret is answered with 200, and queues a sync of the calendar.
  pub start_watch_serves :
      (account_id calendar_id : ℕ) (cal : Calendar) (address : Text) (ch : Channel) (n : Notice)
      (s : Site)
      → ((k : ℕ) → out.query_ok k ≡ true)
      → ((k : ℕ) → channels k ≡ some ch)
      → find_channel ch.id s.tokens ≡ none
      → is_nil ch.id ≡ false
      → n.channel_id ≡ ch.id
      → n.channel_token ≡ random (suc (suc s.world.tick))
      → text_eq n.resource_state (codes "sync") ≡ false
      → let after = start_watch out random channels now account_id calendar_id cal address s in
        let served = serve_http out random channels now n after.1 in
        (after.0 ≡ ok tt)
        × (served.0 ≡ 200)
        × (served.1.workers ≡ enqueue_calendar account_id calendar_id s.workers)
  start_watch_serves account_id calendar_id cal address ch n s q c h m e k y =
      let (done, kept, r) = start_watch-route account_id calendar_id cal address ch s q c h in
      let after = (start_watch out random channels now account_id calendar_id cal address s).1 in
      let named : is_nil n.channel_id ≡ false = rw e m in
      let route' : route (find_channel n.channel_id after.tokens)
          ≡ some (account_id, calendar_id, n.channel_token) =
        rw (e, k) r in
      let served = serve_http-route n account_id calendar_id after q named y route' in
      (done, served.0, served.1 ∙ ap (enqueue_calendar account_id calendar_id) kept)
