-- ===== src/Sync/Buffers/Recompute/Orphan.antt =====
-- A buffer whose row lies outside the range that `Recompute` lists.
use skulid.Base.{◌≡◌, true, List, [], ◌∷◌, none, some, arith}
use skulid.Sync.Outside.{ok, ◌>>=◌, ◌>>◌, or_fail, Saved, Outside}
use skulid.Sync.Event.{Calendar}
use skulid.Sync.Filter.{Runtime}
use skulid.Sync.Engine.Store.{insert}
use skulid.Sync.Buffers.{PlannedBuffer}
use skulid.Sync.Buffers.Recompute.{
  BufferEvent, Shelf, find_key, taken, ask, insert_row, call_google, body_of, row_of, create_buffer,
  apply_buffer, place_all,
}

module _ (out : Outside) (go : Runtime) where
  -- Where the table has a row for a planned buffer that the map of listed rows lacks, and Google
  -- saves what it is given, placing the buffer inserts an event on Google and leaves the table and
  -- the map as they were.
  pub place_all_orphan :
      (cal : Calendar) (want : PlannedBuffer) (by_key : List BufferEvent) (saved : Saved)
      (w : Shelf)
      → find_key want.key by_key ≡ none
      → out.saved w.tick ≡ some saved
      → taken (row_of out go cal want saved.id 0) w.rows ≡ true
      → let after = place_all out go cal (want ∷ []) by_key w in
        (after.0 ≡ ok by_key)
        × (after.1.rows ≡ w.rows)
        × (after.1.calls ≡ insert cal.google_calendar_id (body_of out go cal want) ∷ w.calls)
  unfolding place_all apply_buffer create_buffer call_google insert_row ask ◌>>=◌ ◌>>◌ or_fail
  place_all_orphan cal want by_key saved w n s t = ground arith
