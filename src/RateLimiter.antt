-- ===== src/RateLimiter.antt =====
-- src/rate_limiter.cpp: `RateLimiter`, which sends requests one after the other and waits where
-- the answers to earlier requests to the same target said that none remain. Here are its state,
-- and what it reads from a response and keeps; its steps are in Machine.
pub mod Headers
mod Starts
mod Steps
mod Order
mod Shutdown
mod Once
mod Limits
mod Machine
mod Stuck
mod Tests
use Prim.Native.String.{String}
use text.Mathlib.Text.{◌==◌ as str_eq}
use ekizu.Prelude.{
  ℕ, ◌+◌, ◌*◌, ◌%◌, ◌^◌, ◌<◌, Bool, true, false, ◌&&◌, Option, none, some, List, [], ◌∷◌, ◌++◌,
  length, take, leb, ltb, ◌==◌, if◌then◌else◌,
}
use Headers.{Time, stoul, stol, is_before}

-- `inner.method()` and `inner.target()` of the request, and the flag.
pub record DiscordApiRequest : Type 0 where
  pub verb : ℕ
  pub target : String
  pub bot : Bool

pub record Response : Type 0 where
  pub status : ℕ
  pub body : List ℕ
  pub limit_header : Option (List ℕ)
  pub remaining_header : Option (List ℕ)
  pub reset_header : Option (List ℕ)

-- `ekizu::errc`, and the codes that the send function and the timer report.
pub data ErrorCode : Type 0 where
  http_rate_limited http_redirection http_client_error http_server_error http_error : ErrorCode
  rate_limiter_stopped rate_limiter_send_disabled : ErrorCode
  transport_error timer_error : ℕ → ErrorCode

pub data Reply : Type 0 where
  response : Response → Reply
  error : ErrorCode → Reply

-- The text that `set_error_context` gets. Of the texts that are put together only what varies in
-- size is kept: the body.
pub data Context : Type 0 where
  shutting_down send_not_set : Context
  http_transport : ErrorCode → Context
  http_status : List ℕ → Bool → Context

pub record RateLimit : Type 0 where
  pub limit : ℕ
  pub remaining : ℕ
  pub reset_time : Time

-- A request with its completion handler, which a number names.
pub record Pending : Type 0 where
  pub req : DiscordApiRequest
  pub handler : ℕ

-- A completion handler that was posted: what it is called with, and the context set before.
pub record Completion : Type 0 where
  pub handler : ℕ
  pub result : Reply
  pub context : Option Context

abbrev pub RateLimits : Type 0
RateLimits = ℕ → String → Option RateLimit

pub record RateLimiter : Type 0 where
  pub stopping : Bool
  pub has_send_fn : Bool
  pub rate_limits : RateLimits
  pub busy : Bool
  pub queue : List Pending
  pub waiting : Option Pending
  pub armed : Option Time
  pub in_flight : Option Pending
  pub completed : List Completion

-- The constructor.
abbrev pub new_rate_limiter : Bool → RateLimiter
new_rate_limiter has_send_fn = record {
  stopping = false;
  has_send_fn = has_send_fn;
  rate_limits = λ _ _. none;
  busy = false;
  queue = [];
  waiting = none;
  armed = none;
  in_flight = none;
  completed = [];
}

abbrev pub error_body_limit : ℕ
error_body_limit = 1024

-- The body as far as it is shown, and whether it was cut.
unfoldable pub build_http_status_context : Response → Context
build_http_status_context res =
    if ltb error_body_limit (length res.body)
    then http_status (take error_body_limit res.body) true
    else http_status res.body false

unfoldable pub map_http_status_to_errc : ℕ → ErrorCode
map_http_status_to_errc s =
    if s == 429
    then http_rate_limited
    else if leb 300 s && ltb s 400
    then http_redirection
    else if leb 400 s && ltb s 500
    then http_client_error
    else if leb 500 s && ltb s 600
    then http_server_error
    else http_error

-- `m_rate_limits[method][target] = limit`.
unfoldable pub insert_or_assign : ℕ → String → RateLimit → RateLimits → RateLimits
insert_or_assign m t limit old m' t' = if m' == m && str_eq t' t then some limit else old m' t'

-- The rate limit that three header values spell; `none` is an exception.
unfoldable pub read_limit : List ℕ → List ℕ → List ℕ → Option RateLimit
read_limit l r t = elim (stoul l) [
  | none ↦ none
  | some limit ↦ elim (stoul r) [
    | none ↦ none
    | some remaining ↦ elim (stol t) [
      | none ↦ none
      | some reset ↦
          some
            (record { limit = limit % 2 ^ 16; remaining = remaining % 2 ^ 16; reset_time = reset })
    ]
  ]
]

-- The limits after a response: unchanged if a header is missing, `none` if a value throws.
store_from :
    DiscordApiRequest
    → RateLimits
    → Option (List ℕ)
    → Option (List ℕ)
    → Option (List ℕ)
    → Option RateLimits
store_from req old (some l) (some r) (some t) = elim (read_limit l r t) [
  | none ↦ none
  | some limit ↦ some (insert_or_assign req.verb req.target limit old)
]
store_from req old _ _ _ = some old

unfoldable pub store_limits : DiscordApiRequest → Response → RateLimits → Option RateLimits
unfolding store_from
store_limits req res old = store_from req old res.limit_header res.remaining_header res.reset_header
