-- ===== src/Retry/Examples.antt =====
-- The theorem on retries at an insert that is answered with 429 twice.
use skulid.Base.{true, false, [], none, some, ltb, if◌then◌else◌, arith, codes}
use skulid.Retry.{Response, other, Wire, Request, round_trip}
use skulid.Retry.Bounds.{IsBounded, Within, round_trip-Within}

abbrev slow_down : Response
slow_down = record { status = 429; body = []; retry_after = codes "1" }

abbrev done : Response
done = record { status = 200; body = []; retry_after = [] }

abbrev busy_google : Wire
busy_google = record {
  send = λ n. some (if ltb n 2 then slow_down else done);
  again = λ n. true;
  cancelled = λ n. false;
  now = λ n. 0;
  http_time = λ t. none;
  random = λ n half. half;
}

busy_google-IsBounded : IsBounded busy_google
busy_google-IsBounded attempt half = omega arith

abbrev insertion : Request
insertion = record { method = other; has_body = true; has_get_body = true }

round_trip-Within_example : Within 3 other (round_trip busy_google insertion)
round_trip-Within_example = round_trip-Within busy_google busy_google-IsBounded insertion
