-- ===== src/Sync/Buffers/Plan.antt =====
-- What `planBuffers` plans around a meeting.
use skulid.Base.{
  refl, ℕ, ◌≡◌, ◌≤◌, false, not, ◌&&◌, [], Option, none, some, All, map, arith, inl, inr,
  Bool-cases, ◌==◌,
}
use skulid.Hours.Window.{Ordered, overlap}
use skulid.Sync.Event.{Event}
use skulid.Sync.Filter.{Runtime, Stamp, date_time_of}
use skulid.Sync.Buffers.{
  BufferSettings, block_of, is_real_commitment, is_decompressible_meeting, is_travel_worthy,
  instant_of, plan_around, plan_between, plan_buffers,
}

module _ (go : Runtime) where
  plan_around-Ordered :
      (ev : Event) (start end travel decomp : ℕ)
      → start ≤ end
      → Ordered 0 (map block_of (plan_around go ev start end travel decomp))
        × All
            (λ p. overlap (block_of p) (record { start = start; end = end }) ≡ false)
            (plan_around go ev start end travel decomp)
  unfolding plan_around
  plan_around-Ordered ev start end travel decomp le =
      elim (Bool-cases (not (travel == 0) && is_travel_worthy go ev)) [
        | inl t ↦ elim (Bool-cases (not (decomp == 0) && is_decompressible_meeting ev)) [
          | inl r ↦ rw (t, r) (ground arith)
          | inr r ↦ rw (t, r) (ground arith)
        ]
        | inr t ↦ elim (Bool-cases (not (decomp == 0) && is_decompressible_meeting ev)) [
          | inl r ↦ rw (t, r) (ground arith)
          | inr r ↦ rw (t, r) (ground arith)
        ]
      ]

  -- The buffers of a meeting whose times are read and that does not end before it starts are in
  -- order, without overlap, and none of them overlaps the meeting.
  pub plan_buffers-Ordered :
      (bufs : BufferSettings) (ev : Event) (s e : Stamp)
      → instant_of go (date_time_of ev.start) ≡ some s
      → instant_of go (date_time_of ev.end) ≡ some e
      → s.instant ≤ e.instant
      → Ordered 0 (map block_of (plan_buffers go bufs ev))
        × All
            (λ p. overlap (block_of p) (record { start = s.instant; end = e.instant }) ≡ false)
            (plan_buffers go bufs ev)
  unfolding plan_buffers
  plan_buffers-Ordered bufs ev s e hs he le =
      rw (hs, he) (plan_around-Ordered ev s.instant e.instant _ _ le)

  plan_around_none :
      (ev : Event) (start end travel decomp : ℕ)
      → is_real_commitment ev ≡ false
      → plan_around go ev start end travel decomp ≡ []
  unfolding plan_around is_travel_worthy is_decompressible_meeting
  plan_around_none ev start end travel decomp h = ground arith

  plan_between_none :
      (bufs : BufferSettings) (ev : Event) (s e : Option Stamp)
      → is_real_commitment ev ≡ false
      → plan_between go bufs ev s e ≡ []
  plan_between_none bufs ev none e h = refl
  plan_between_none bufs ev (some s) none h = refl
  plan_between_none bufs ev (some s) (some e) h = plan_around_none ev _ _ _ _ h

  -- An event that is no real commitment earns no buffer, whatever its times are.
  pub plan_buffers_none :
      (bufs : BufferSettings) (ev : Event)
      → is_real_commitment ev ≡ false
      → plan_buffers go bufs ev ≡ []
  unfolding plan_buffers
  plan_buffers_none bufs ev h = plan_between_none bufs ev _ _ h
