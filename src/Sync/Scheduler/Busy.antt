-- ===== src/Sync/Scheduler/Busy.antt =====
-- What the read of the busy time takes into account, and what it leaves alone.
use skulid.Base.{
  ℕ, suc, ◌≡◌, ap, Bool, true, false, List, [], ◌∷◌, Option, none, some, if◌then◌else◌, Text, arith,
}
use skulid.Hours.Window.{Window, covers}
use skulid.Sync.Outside.{Result, FreeBusy, Outside}
use skulid.Sync.Outside.Rules.{Keeps, bind-Keeps, then-Keeps, or_fail-Keeps, if-Keeps}
use skulid.Sync.Event.{Calendar}
use skulid.Sync.Filter.{Runtime}
use skulid.Sync.Desk.{Desk, tick, ask, read, client_for, free_busy, load_buffers, effective_buffers}
use skulid.Sync.Scheduler.{
  padded, apply_buffer_padding, pad_known, collect, gather, busy_everywhere,
}

-- The tables, the audit log and the calls are those of `w`.
abbrev pub IsQuiet : Desk → Desk → Type 0
IsQuiet w w' = w' ≡ record w { tick = w'.tick }

pub IsQuiet-tick : (w w' : Desk) → IsQuiet w w' → IsQuiet w (tick w')
IsQuiet-tick w w' q = ap {A = Desk} {B = Desk} (λ v. record v { tick = suc w'.tick }) q

pub covers-padded :
    (t pad : ℕ) (ws : List Window) → covers t ws ≡ true → covers t (padded pad ws) ≡ true
unfolding padded
covers-padded t pad [] c = c
covers-padded t pad (w ∷ ws) c = ground (arith, covers-padded t pad ws)

module _ (out : Outside) (go : Runtime) where
  module _ (w : Desk) where
    if-IsQuiet :
        {A : Type 0} (b : Bool) (m n : Result A × Desk)
        → IsQuiet w m.1
        → IsQuiet w n.1
        → IsQuiet w (if b then m else n).1
    if-IsQuiet true m n h k = h
    if-IsQuiet false m n h k = k

    pub read-IsQuiet : {A : Type 0} (run : Desk → Option A) → Keeps (IsQuiet w) (read out run)
    unfolding read ask
    read-IsQuiet run w' q =
        if-IsQuiet (out.query_ok w'.tick) _ _
          (or_fail-Keeps (IsQuiet w) _ (run w') _ (IsQuiet-tick w w' q)) (IsQuiet-tick w w' q)

    pub client_for-IsQuiet : Keeps (IsQuiet w) (client_for out)
    unfolding client_for
    client_for-IsQuiet w' q =
        if-IsQuiet (out.client_ok w'.tick) _ _ (IsQuiet-tick w w' q) (IsQuiet-tick w w' q)

    pub free_busy-IsQuiet :
        (ids : List Text) (from to : ℕ) → Keeps (IsQuiet w) (free_busy out ids from to)
    unfolding free_busy
    free_busy-IsQuiet ids from to w' q =
        or_fail-Keeps (IsQuiet w) _ (out.busy w'.tick ids from to) _ (IsQuiet-tick w w' q)

    effective_buffers-IsQuiet : (cal : Calendar) → Keeps (IsQuiet w) (effective_buffers out cal)
    unfolding effective_buffers load_buffers
    effective_buffers-IsQuiet cal =
        if-Keeps (IsQuiet w) _ _ _ (λ w' q. q) (λ w' q. IsQuiet-tick w w' q)

    pad_known-IsQuiet :
        (cal : Option Calendar) (ws : List Window) → Keeps (IsQuiet w) (pad_known out go cal ws)
    unfolding pad_known apply_buffer_padding
    pad_known-IsQuiet none ws = λ w' q. q
    pad_known-IsQuiet (some cal) ws =
        if-Keeps (IsQuiet w) _ _ _ (λ w' q. q)
          (bind-Keeps (IsQuiet w) _ _ (effective_buffers-IsQuiet cal) λ bufs w' q. q)

    collect-IsQuiet :
        (cals : List Calendar) (fb : FreeBusy) → Keeps (IsQuiet w) (collect out go cals fb)
    unfolding collect
    collect-IsQuiet cals [] = λ w' q. q
    collect-IsQuiet cals ((id, periods) ∷ fb) =
        bind-Keeps (IsQuiet w) _ _ (pad_known-IsQuiet _ _)
          λ ws. bind-Keeps (IsQuiet w) _ _ (collect-IsQuiet cals fb) λ rest w' q. q

    pub gather-IsQuiet :
        (from to : ℕ) (groups : List (ℕ × List Calendar))
        → Keeps (IsQuiet w) (gather out go from to groups)
    unfolding gather
    gather-IsQuiet from to [] = λ w' q. q
    gather-IsQuiet from to ((id, cals) ∷ groups) = then-Keeps (IsQuiet w) _ _ client_for-IsQuiet (
        bind-Keeps (IsQuiet w) _ _ (free_busy-IsQuiet _ from to) λ fb.
          bind-Keeps (IsQuiet w) _ _ (collect-IsQuiet cals fb)
            λ ws. bind-Keeps (IsQuiet w) _ _ (gather-IsQuiet from to groups) λ rest w' q. q)

    pub busy_everywhere-IsQuiet : (from to : ℕ) → Keeps (IsQuiet w) (busy_everywhere out go from to)
    unfolding busy_everywhere
    busy_everywhere-IsQuiet from to = bind-Keeps (IsQuiet w) _ _ (read-IsQuiet _) λ all.
        bind-Keeps (IsQuiet w) _ _ (gather-IsQuiet from to _)
          λ gathered. bind-Keeps (IsQuiet w) _ _ (read-IsQuiet _) λ managed w' q. q
