-- ===== src/Storage/BotCalls.antt =====
-- internal/storage/bot/bot.go: the calls of the Bot API, with their retries.
use telang.Common.{
  ℕ, zero, suc, ◌-◌, ◌*◌, ◌^◌, Bool, true, false, ◌&&◌, ◌||◌, Option, none, some, Str, take, drop,
  ltb, leb, ◌==◌, if◌then◌else◌, Result, ok, err, ℤ, int64, pos, negsuc,
}

-- `APIError`, another error (of the network, or of a decoder), and `ctx.Err()`.
pub data CallError : Type 0 where
  api_error : ℕ → Str → ℕ → CallError
  plain_error : CallError
  canceled : CallError

-- The envelope of `callOnce`; without `parameters` its `retry_after` is 0.
pub record Envelope : Type 0 where
  pub is_ok : Bool
  pub description : Str
  pub error_code : ℕ
  pub retry_after : ℕ
  pub result : Str

-- `http.Do` and `io.ReadAll` of a POST: an error, or a status and the body of the response.
pub data Reply : Type 0 where
  no_reply : Reply
  reply : ℕ → Str → Reply

-- A request's body: the bytes that its reader still holds, and whether it is the pipe of `Put`.
pub record Body : Type 0 where
  pub is_pipe : Bool
  pub bytes : Str

-- What the calls take from outside: `http.Client`, over the state of the network and the server,
-- which also says how much of the body it read; the clock, which says whether the context was done
-- before the wait was over; and the decoder of the envelope.
pub record Client (S : Type 0) : Type 0 where
  pub post : Str → Str → S → Reply × ℕ × S
  pub wait : ℤ → S → Bool × S
  pub unmarshal_envelope : Str → Option Envelope

abbrev pub second : ℕ
second = 10 ^ 9

unfoldable pub at_most : ℕ → ℤ → ℤ
at_most limit (pos n) = if ltb limit n then pos limit else pos n
at_most limit (negsuc n) = negsuc n

-- `backoff`, in nanoseconds.
unfoldable pub backoff : ℕ → ℤ
unfolding int64 at_most
backoff attempt = at_most (15 * second) (int64 (second * 2 ^ (attempt - 1)))

-- The wait before a retry: what the last error asks for, or `backoff`.
unfoldable pub delay : ℕ → CallError → ℤ
unfolding backoff
delay attempt (api_error code description retry_after) =
    if ltb 0 retry_after then int64 (retry_after * second) else backoff attempt
delay attempt e = backoff attempt

-- `isRetryable`
unfoldable pub is_retryable : CallError → Bool
is_retryable (api_error code description retry_after) =
    code == 429 || (leb 500 code && ltb code 600)
is_retryable e = true

unfoldable pub read_envelope :
    {A : Type 0} → (Str → Option A) → ℕ → Option Envelope → Result CallError A
read_envelope decode status none = err plain_error
read_envelope decode status (some env) =
    if env.is_ok
    then elim (decode env.result) [ some a ↦ ok a | none ↦ err plain_error ]
    else err (
        api_error (if env.error_code == 0 then status else env.error_code) env.description
          env.retry_after)

module _ {S : Type 0} (c : Client S) where
  unfoldable pub read_reply : {A : Type 0} → (Str → Option A) → Reply → Result CallError A
  unfolding read_envelope
  read_reply decode no_reply = err plain_error
  read_reply decode (reply status raw) =
      read_envelope decode status (c.unmarshal_envelope (take (2 ^ 20) raw))

  -- `callOnce`, and what is left in the body's reader.
  unfoldable pub call_once :
      {A : Type 0} → (Str → Option A) → Str → Body → S → Result CallError A × Body × S
  unfolding read_reply
  call_once decode method body s =
      let (r, n, s') = c.post method body.bytes s in
      (read_reply decode r, record body { bytes = drop n body.bytes }, s')

  -- The loop of `callWithRetry`, from an attempt on that follows the error `last`.
  unfoldable pub retry :
      {A : Type 0}
      → (Str → Option A)
      → Str
      → ℕ
      → ℕ
      → CallError
      → Body
      → S
      → Result CallError A × Body × S
  unfolding call_once delay is_retryable
  retry decode method zero attempt last body s = (err last, body, s)
  retry decode method (suc left) attempt last body s =
      if body.is_pipe
      then (err last, body, s)
      else (let (done, waited) = c.wait (delay attempt last) s in
          let (r, body', s') = call_once decode method body waited in
          if done then (err canceled, body, waited) else elim r [
            | ok a ↦ (ok a, body', s')
            | err e ↦ elim (is_retryable e) [
              | true ↦ retry decode method left (suc attempt) e body' s'
              | false ↦ (err e, body', s')
            ]
          ])

  -- `callWithRetry`: attempt 0, and `max_retry` attempts more.
  unfoldable pub call_with_retry :
      {A : Type 0} → ℕ → (Str → Option A) → Str → Body → S → Result CallError A × Body × S
  unfolding retry
  call_with_retry max_retry decode method body s =
      let (r, body', s') = call_once decode method body s in
      elim r [
        | ok a ↦ (ok a, body', s')
        | err e ↦ elim (is_retryable e) [
          | true ↦ retry decode method max_retry 1 e body' s'
          | false ↦ (err e, body', s')
        ]
      ]

  -- `callForm`
  unfoldable pub call_form :
      {A : Type 0} → ℕ → (Str → Option A) → Str → Str → S → Result CallError A × S
  unfolding call_with_retry
  call_form max_retry decode method form s =
      let (r, _, s') =
        call_with_retry max_retry decode method (record { is_pipe = false; bytes = form }) s in
      (r, s')
