-- ===== src/Storage/Attempts.antt =====
-- internal/storage/bot/bot.go: the attempts of a call, seen by a client that writes them down.
use telang.Common.{
  int64, ℕ, zero, suc, ◌-◌, ◌*◌, ◌^◌, ◌≤◌, ◌<◌, ◌≡◌, refl, sym, ◌∙◌, true, false, Option, List, [],
  ◌∷◌, ◌++◌, append_assoc, append-nil, Str, length, drop, ltb, if◌then◌else◌, pos, arith, inl, inr,
  Bool-cases, Result-cases,
}
use native.Mathlib.Nat.{pow-le-pow_right}
use telang.Storage.BotCalls.{
  CallError, Client, call_once, retry, call_with_retry, call_form, read_reply, is_retryable, delay,
  backoff, second, at_most,
}

-- A client that writes down the bodies that it is given.
unfoldable pub logged : {S : Type 0} → Client S → Client (S × List Str)
logged c = record {
  post = λ (method : Str) (body : Str) ((s, log) : _ × List Str).
      let (r, n, s') = c.post method body s in (r, n, (s', log ++ (body ∷ [])));
  wait = λ d ((s, log) : _ × List Str). let (done, s') = c.wait d s in (done, (s', log));
  unmarshal_envelope = c.unmarshal_envelope;
}

unfoldable pub empties : ℕ → List Str
empties zero = []
empties (suc n) = [] ∷ empties n

drop-all : (n : ℕ) (t : Str) → length t ≤ n → drop n t ≡ []
drop-all zero [] h = refl
drop-all (suc n) [] h = refl
drop-all zero (x ∷ t) h = absurd (omega arith)
drop-all (suc n) (x ∷ t) h = drop-all n t (omega arith)

module _ {S A : Type 0} (c : Client S) (decode : Str → Option A) (method : Str) where
  retry-empties :
      (left attempt : ℕ) (last : CallError) (s : S × List Str)
      → (k : ℕ) × (k ≤ left)
        × ((retry
              (logged c)
              decode
              method
              left
              attempt
              last
              (record { is_pipe = false; bytes = [] })
              s).2.1
            ≡ s.1 ++ empties k)
  unfolding retry logged empties call_once
  retry-empties zero attempt last s = (0, omega arith, sym (append-nil s.1))
  retry-empties (suc left) attempt last s =
      let waited = (c.wait (delay attempt last) s.0).1 in
      let p = c.post method [] waited in
      let again : (e : CallError)
          → (k : ℕ) × (k ≤ left)
            × ((retry (logged c) decode method left (suc attempt) e
                  (record { is_pipe = false; bytes = drop p.1 [] }) (p.2, s.1 ++ ([] ∷ []))).2.1
                ≡ s.1 ++ empties (suc k)) =
        λ e.
          let (k, le, same) = retry-empties left (suc attempt) e (p.2, s.1 ++ ([] ∷ [])) in
          (
            k,
            le,
            rw (drop-all p.1 [] (omega arith)) (same ∙ append_assoc s.1 ([] ∷ []) (empties k)),
          ) in
      elim (Bool-cases (c.wait (delay attempt last) s.0).0) [
        | inl d ↦ rw (d, retry) (0, omega arith, sym (append-nil s.1))
        | inr d ↦
            rw (d, retry)
              (elim (Result-cases (read_reply (logged c) decode p.0)) [
                | inl (a, e) ↦ rw e (1, omega arith, refl)
                | inr (b, e) ↦ rw e (elim (Bool-cases (is_retryable b)) [
                  | inl t ↦ rw t (let (k, le, same) = again b in (suc k, omega arith, same))
                  | inr f ↦ rw f (1, omega arith, refl)
                ])
              ])
      ]

  call_with_retry-attempts :
      (max_retry : ℕ) (form : Str) (s : S)
      → ((body : Str) (t : S) → length body ≤ (c.post method body t).1)
      → (k : ℕ) × (k ≤ max_retry)
        × ((call_with_retry
              (logged c)
              max_retry
              decode
              method
              (record { is_pipe = false; bytes = form })
              (s, [])).2.1
            ≡ form ∷ empties k)
  unfolding call_with_retry call_once logged empties
  call_with_retry-attempts max_retry form s reads =
      let p = c.post method form s in
      elim (Result-cases (read_reply (logged c) decode p.0)) [
        | inl (a, e) ↦ rw (e, call_with_retry) (0, omega arith, refl)
        | inr (b, e) ↦
            rw (e, call_with_retry)
              (elim (Bool-cases (is_retryable b)) [
                | inl t ↦ rw t (
                    rw (drop-all p.1 form (reads form s))
                      (retry-empties max_retry 1 b (p.2, form ∷ [])))
                | inr f ↦ rw f (0, omega arith, refl)
              ])
      ]

  -- With a client that reads the whole body of every request, callForm sends the form once, and
  -- then at most `max_retry` times an empty body.
  pub call_form-attempts :
      (max_retry : ℕ) (form : Str) (s : S)
      → ((body : Str) (t : S) → length body ≤ (c.post method body t).1)
      → (k : ℕ) × (k ≤ max_retry)
        × ((call_form (logged c) max_retry decode method form (s, [])).1.1 ≡ form ∷ empties k)
  unfolding call_form
  call_form-attempts = call_with_retry-attempts

  retry-pipe :
      (left : ℕ) (last : CallError) (bytes : Str) (s : S × List Str)
      → (retry
          (logged c)
          decode
          method
          left
          1
          last
          (record { is_pipe = true; bytes = bytes })
          s).2.1
        ≡ s.1
  unfolding retry
  retry-pipe zero last bytes s = refl
  retry-pipe (suc left) last bytes s = refl

  -- A body that is a pipe is sent exactly once, whatever `max_retry` is and the server answers.
  pub call_with_retry-pipe :
      (max_retry : ℕ) (body : Str) (s : S)
      → (call_with_retry
          (logged c)
          max_retry
          decode
          method
          (record { is_pipe = true; bytes = body })
          (s, [])).2.1
        ≡ body ∷ []
  unfolding call_with_retry call_once logged
  call_with_retry-pipe max_retry body s =
      let p = c.post method body s in
      elim (Result-cases (read_reply (logged c) decode p.0)) [
        | inl (a, e) ↦ rw (e, call_with_retry) refl
        | inr (b, e) ↦
            rw (e, call_with_retry)
              (elim (Bool-cases (is_retryable b)) [
                | inl t ↦ rw t (retry-pipe max_retry b (drop p.1 body) (p.2, body ∷ []))
                | inr f ↦ rw f refl
              ])
      ]

int64_small : (n : ℕ) → n < 2 ^ 63 → int64 n ≡ pos n
unfolding int64
int64_small n h = ground arith

capped :
    (d : ℕ) → 15 * second < d → d < 2 ^ 63 → at_most (15 * second) (int64 d) ≡ pos (15 * second)
unfolding at_most
capped d h h' = rw (int64_small d h') (ground arith)

-- Before attempt 1 to 34, backoff waits 1, 2, 4 and 8 seconds, and 15 seconds from the fifth on.
pub backoff_lem :
    (attempt : ℕ)
    → 1 ≤ attempt
    → attempt ≤ 34
    → backoff attempt ≡ pos (if ltb 4 attempt then 15 * second else second * 2 ^ (attempt - 1))
unfolding backoff at_most
backoff_lem zero h h' = absurd (omega arith)
backoff_lem (suc zero) h h' = refl
backoff_lem (suc (suc zero)) h h' = refl
backoff_lem (suc (suc (suc zero))) h h' = refl
backoff_lem (suc (suc (suc (suc zero)))) h h' = refl
backoff_lem (suc (suc (suc (suc (suc n))))) h h' =
    let low : 2 ^ 4 ≤ 2 ^ (suc (suc (suc (suc (suc n)))) - 1) =
      pow-le-pow_right (omega arith) {i = 4} (omega arith) in
    let high : 2 ^ (suc (suc (suc (suc (suc n)))) - 1) ≤ 2 ^ 33 =
      pow-le-pow_right (omega arith) {j = 33} (omega arith) in
    let late : ltb 4 (suc (suc (suc (suc (suc n))))) ≡ true = ground arith in
    rw late (
      capped (second * 2 ^ (suc (suc (suc (suc (suc n)))) - 1)) (omega (arith, low))
        (omega (arith, high)))
