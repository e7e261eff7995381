-- ===== src/Retry/Bounds.antt =====
-- How often a request is sent, how long it waits, and what is sent again.
use skulid.Base.{
  ℕ, zero, suc, ◌/◌, ◌≡◌, ◌≤◌, refl, Bool, true, false, ◌⊎◌, inl, inr, Option, none, some,
  if◌then◌else◌, All, arith, Bool-cases, Option-cases, length,
}
use skulid.Retry.{
  max_retry_delay, backoff_delay, Method, Response, is_rate_limited, is_idempotent,
  is_retryable_server_error, Wire, Request, Outcome, Trip, with_jitter, parse_retry_after,
  retry_delay, stop, response, transport_failed, body_failed, was_cancelled, body_lost, respond,
  receive, receive_last, attempts, round_trip,
}

-- The random part of a delay is at most what it is taken from.
abbrev pub IsBounded : Wire → Type 0
IsBounded wire = (attempt half : ℕ) → wire.random attempt half ≤ half

backoff_delay_bound : (attempt : ℕ) → backoff_delay attempt ≤ max_retry_delay
unfolding backoff_delay
backoff_delay_bound attempt = ground arith

module _ (wire : Wire) (b : IsBounded wire) where
  with_jitter_bound : (attempt d : ℕ) → with_jitter wire attempt d ≤ d
  unfolding with_jitter
  with_jitter_bound attempt d = ground (arith, b attempt (d / 2))

  retry_delay_bound :
      (method : Method) (r : Response) (attempt d : ℕ)
      → retry_delay wire method r attempt ≡ some d
      → d ≤ max_retry_delay
  unfolding retry_delay
  retry_delay_bound method r attempt d h = ground (
    arith,
    Option-cases (parse_retry_after wire attempt r.retry_after),
    backoff_delay_bound attempt,
    with_jitter_bound attempt (backoff_delay attempt),
  )

-- A response after which a request may be sent again: the server did nothing, or the method may be
-- repeated.
abbrev pub MayRepeat : Method → Response → Type 0
MayRepeat method r = (r.status ≡ 429) ⊎ (r.status ≡ 403) ⊎ (is_idempotent method ≡ true)

retry_delay-MayRepeat :
    (wire : Wire) (method : Method) (r : Response) (attempt d : ℕ)
    → retry_delay wire method r attempt ≡ some d
    → MayRepeat method r
unfolding retry_delay is_rate_limited is_retryable_server_error
retry_delay-MayRepeat wire method r attempt d h = ground arith

-- Four sends, three delays of eight seconds, and nothing repeated that may not be.
pub record Within (left : ℕ) (method : Method) (t : Trip) : Type 0 where
  pub few_sends : t.sends ≤ suc left
  pub few_sleeps : length t.sleeps ≤ left
  pub short_sleeps : All (λ d. d ≤ max_retry_delay) t.sleeps
  pub safe : All (MayRepeat method) t.replayed

module _ (wire : Wire) (b : IsBounded wire) (req : Request) where
  stop-Within :
      (left sends : ℕ) (o : Outcome) → sends ≤ suc left → Within left req.method (stop o sends)
  stop-Within left sends o h = record {
    few_sends = h;
    few_sleeps = omega arith;
    short_sleeps = tt;
    safe = tt;
  }

  respond-Within :
      (left attempt : ℕ) (r : Response) (delay : Option ℕ) (rest : Trip)
      → retry_delay wire req.method r attempt ≡ delay
      → Within left req.method rest
      → Within (suc left) req.method (respond wire req attempt r delay rest)
  respond-Within left attempt r none rest h i = stop-Within (suc left) 1 (response r) (omega arith)
  respond-Within left attempt r (some d) rest h i = elim (Bool-cases (wire.cancelled attempt)) [
    | inl c ↦ rw c (stop-Within (suc left) 1 was_cancelled (omega arith))
    | inr c ↦ rw c (record {
      few_sends = omega (arith, i.few_sends);
      few_sleeps = omega (arith, i.few_sleeps);
      short_sleeps = (retry_delay_bound wire b req.method r attempt d h, i.short_sleeps);
      safe = (retry_delay-MayRepeat wire req.method r attempt d h, i.safe);
    })
  ]

  receive-Within :
      (left attempt : ℕ) (o : Option Response) (rest : Trip)
      → Within left req.method rest
      → Within (suc left) req.method (receive wire req attempt o rest)
  receive-Within left attempt none rest i = stop-Within (suc left) 1 transport_failed (omega arith)
  receive-Within left attempt (some r) rest i = respond-Within left attempt r _ rest refl i

  receive_last-Within :
      (left : ℕ) (o : Option Response) → Within left req.method (receive_last wire o)
  receive_last-Within left none = stop-Within left 1 transport_failed (omega arith)
  receive_last-Within left (some r) = stop-Within left 1 (response r) (omega arith)

  if-Within :
      (left : ℕ) (c : Bool) (t u : Trip)
      → Within left req.method t
      → Within left req.method u
      → Within left req.method (if c then t else u)
  if-Within left true t u i j = i
  if-Within left false t u i j = j

  attempts-Within : (left attempt : ℕ) → Within left req.method (attempts wire left req attempt)
  unfolding attempts
  attempts-Within zero attempt =
      if-Within zero (body_lost wire req attempt) _ _ (stop-Within zero 0 body_failed (omega arith))
        (receive_last-Within zero (wire.send attempt))
  attempts-Within (suc left) attempt =
      if-Within (suc left) (body_lost wire req attempt) _ _
        (stop-Within (suc left) 0 body_failed (omega arith))
        (receive-Within left attempt (wire.send attempt) _ (attempts-Within left (suc attempt)))

  -- Where the random part of a delay is at most what it is taken from, a request is sent four times
  -- at most, with three delays at most of eight seconds each, and it is sent again only after a 429
  -- or a 403, unless its method may be repeated.
  pub round_trip-Within : Within 3 req.method (round_trip wire req)
  unfolding round_trip
  round_trip-Within = if-Within 3 _ _ _ (receive_last-Within 3 (wire.send 0)) (attempts-Within 3 0)
