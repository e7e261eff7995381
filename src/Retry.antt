-- ===== src/Retry.antt =====
-- internal/calendar/retry.go: the retries of requests to Google. The transport below, the body of
-- a request, the clock, the reading of an HTTP date and the random part of a delay are parameters.
-- Times are nanoseconds.
pub mod Bounds
mod Examples
use skulid.Base.{
  ℕ, zero, suc, ◌+◌, ◌-◌, ◌*◌, ◌/◌, ◌%◌, ◌^◌, Bool, true, false, not, ◌&&◌, ◌||◌, List, [], ◌∷◌,
  Option, none, some, ltb, leb, ◌==◌, if◌then◌else◌, Text, codes, text_eq, is_nil, trim_space, atoi,
  Signed, contains,
}

abbrev base_retry_delay : ℕ
base_retry_delay = 500000000

abbrev pub max_retry_delay : ℕ
max_retry_delay = 8000000000

-- `baseRetryDelay << attempt` on 64 bits: what is 2 ^ 63 or more is negative.
unfoldable pub backoff_delay : ℕ → ℕ
backoff_delay attempt =
    let d = base_retry_delay * 2 ^ attempt % 2 ^ 64 in
    if ltb max_retry_delay d || d == 0 || leb (2 ^ 63) d then max_retry_delay else d

-- `Method` of a request, as far as the code tells them apart.
pub data Method : Type 0 where
  get head put delete other : Method

-- What is read of a response: `body` is what `peekBody` reads.
pub record Response : Type 0 where
  pub status : ℕ
  pub body : Text
  pub retry_after : Text

unfoldable pub is_rate_limited : ℕ → Text → Bool
is_rate_limited status body =
    if status == 429
    then true
    else if not (status == 403)
    then false
    else contains body (codes "rateLimitExceeded")
      || contains body (codes "userRateLimitExceeded")
      || contains body (codes "quotaExceeded")

abbrev pub is_idempotent : Method → Bool
is_idempotent get = true
is_idempotent head = true
is_idempotent put = true
is_idempotent delete = true
is_idempotent other = false

unfoldable pub is_retryable_server_error : Method → ℕ → Bool
is_retryable_server_error method status =
    (status == 500 || status == 502 || status == 503 || status == 504) && is_idempotent method

-- `send n` answers attempt n, none for an error of the transport; `again n` is whether the body
-- can be had again; `cancelled n` is whether the request was cancelled; `random half` is
-- `float64(half) * frac`, cut to a duration.
pub record Wire : Type 0 where
  pub send : ℕ → Option Response
  pub again : ℕ → Bool
  pub cancelled : ℕ → Bool
  pub now : ℕ → ℕ
  pub http_time : Text → Option ℕ
  pub random : ℕ → ℕ → ℕ

pub record Request : Type 0 where
  pub method : Method
  pub has_body : Bool
  pub has_get_body : Bool

pub data Outcome : Type 0 where
  response : Response → Outcome
  transport_failed body_failed was_cancelled : Outcome

-- The outcome, the number of sends, the delays that were slept and the responses that were
-- discarded for another attempt.
pub record Trip : Type 0 where
  pub outcome : Outcome
  pub sends : ℕ
  pub sleeps : List ℕ
  pub replayed : List Response

pub replayable : Request → Bool
replayable req = not req.has_body || req.has_get_body

abbrev pub stop : Outcome → ℕ → Trip
stop o sends = record { outcome = o; sends = sends; sleeps = []; replayed = [] }

abbrev again_after : ℕ → Response → Trip → Trip
again_after delay r rest = record {
  outcome = rest.outcome;
  sends = suc rest.sends;
  sleeps = delay ∷ rest.sleeps;
  replayed = r ∷ rest.replayed;
}

module _ (wire : Wire) where
  unfoldable pub with_jitter : ℕ → ℕ → ℕ
  with_jitter attempt d = if d == 0 then 0 else d / 2 + wire.random attempt (d / 2)

  abbrev until : ℕ → Option ℕ → Option ℕ
  until attempt none = none
  until attempt (some t) = some (t - wire.now attempt)

  abbrev seconds_or_date : ℕ → Text → Option Signed → Option ℕ
  seconds_or_date attempt v none = until attempt (wire.http_time v)
  seconds_or_date attempt v (some secs) =
      if secs.negative
      then some 0
      else let bits = secs.magnitude * 1000000000 % 2 ^ 64 in
        some (if ltb bits (2 ^ 63) then bits else 0)

  -- A date in the past gives no delay. The nanoseconds of a number of seconds wrap around on 64
  -- bits; a delay that becomes negative is 0 here, since `time.Sleep` treats both the same.
  unfoldable pub parse_retry_after : ℕ → Text → Option ℕ
  parse_retry_after attempt v =
      let t = trim_space v in if is_nil t then none else seconds_or_date attempt t (atoi t)

  abbrev delay_or_backoff : ℕ → Option ℕ → ℕ
  delay_or_backoff attempt none = with_jitter attempt (backoff_delay attempt)
  delay_or_backoff attempt (some d) = if ltb max_retry_delay d then max_retry_delay else d

  -- The body is read for a 403 alone.
  unfoldable pub retry_delay : Method → Response → ℕ → Option ℕ
  retry_delay method r attempt =
      let body = if r.status == 403 then r.body else [] in
      if is_rate_limited r.status body || is_retryable_server_error method r.status
      then some (delay_or_backoff attempt (parse_retry_after attempt r.retry_after))
      else none

  -- One attempt: the body again where it must be, the send, and what follows a response.
  abbrev pub respond : Request → ℕ → Response → Option ℕ → Trip → Trip
  respond req attempt r none rest = stop (response r) 1
  respond req attempt r (some delay) rest =
      if wire.cancelled attempt then stop was_cancelled 1 else again_after delay r rest

  abbrev pub receive : Request → ℕ → Option Response → Trip → Trip
  receive req attempt none rest = stop transport_failed 1
  receive req attempt (some r) rest = respond req attempt r (retry_delay req.method r attempt) rest

  abbrev pub receive_last : Option Response → Trip
  receive_last none = stop transport_failed 1
  receive_last (some r) = stop (response r) 1

  abbrev pub body_lost : Request → ℕ → Bool
  body_lost req attempt = not (attempt == 0) && req.has_get_body && not (wire.again attempt)

  -- The loop, with `left` attempts after this one.
  unfoldable pub attempts : ℕ → Request → ℕ → Trip
  attempts zero req attempt =
      if body_lost req attempt then stop body_failed 0 else receive_last (wire.send attempt)
  attempts (suc left) req attempt =
      let rest = attempts left req (suc attempt) in
      if body_lost req attempt
      then stop body_failed 0
      else receive req attempt (wire.send attempt) rest

  -- `RoundTrip`: four attempts at most.
  unfoldable pub round_trip : Request → Trip
  round_trip req = if not (replayable req) then receive_last (wire.send 0) else attempts 3 req 0
