-- ===== src/Sync/Scheduler/Neat.antt =====
-- The reads of the busy time keep the state well formed.
use skulid.Base.{ℕ, List, [], ◌∷◌, Option, none, some}
use skulid.Hours.Window.{Window}
use skulid.Sync.Outside.{FreeBusy, Outside}
use skulid.Sync.Outside.Rules.{Keeps, bind-Keeps, then-Keeps, if-Keeps}
use skulid.Sync.Event.{Calendar}
use skulid.Sync.Filter.{Runtime}
use skulid.Sync.Desk.Neat.{Neat, read-Neat, client_for-Neat, free_busy-Neat, effective_buffers-Neat}
use skulid.Sync.Scheduler.{apply_buffer_padding, pad_known, collect, gather, busy_everywhere}

module _ (out : Outside) (go : Runtime) where
  pad_known-Neat : (cal : Option Calendar) (ws : List Window) → Keeps Neat (pad_known out go cal ws)
  unfolding pad_known apply_buffer_padding
  pad_known-Neat none ws = λ w p. p
  pad_known-Neat (some cal) ws =
      if-Keeps Neat _ _ _ (λ w p. p)
        (bind-Keeps Neat _ _ (effective_buffers-Neat out cal) λ bufs w p. p)

  collect-Neat : (cals : List Calendar) (fb : FreeBusy) → Keeps Neat (collect out go cals fb)
  unfolding collect
  collect-Neat cals [] = λ w p. p
  collect-Neat cals ((id, periods) ∷ fb) =
      bind-Keeps Neat _ _ (pad_known-Neat _ _)
        λ ws. bind-Keeps Neat _ _ (collect-Neat cals fb) λ rest w p. p

  gather-Neat :
      (from to : ℕ) (groups : List (ℕ × List Calendar)) → Keeps Neat (gather out go from to groups)
  unfolding gather
  gather-Neat from to [] = λ w p. p
  gather-Neat from to ((id, cals) ∷ groups) = then-Keeps Neat _ _ (client_for-Neat out) (
      bind-Keeps Neat _ _ (free_busy-Neat out _ from to) λ fb.
        bind-Keeps Neat _ _ (collect-Neat cals fb)
          λ ws. bind-Keeps Neat _ _ (gather-Neat from to groups) λ rest w p. p)

  pub busy_everywhere-Neat : (from to : ℕ) → Keeps Neat (busy_everywhere out go from to)
  unfolding busy_everywhere
  busy_everywhere-Neat from to = bind-Keeps Neat _ _ (read-Neat out _) λ all.
      bind-Keeps Neat _ _ (gather-Neat from to _)
        λ gathered. bind-Keeps Neat _ _ (read-Neat out _) λ managed w p. p
