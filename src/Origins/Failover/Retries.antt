-- ===== src/Origins/Failover/Retries.antt =====
-- What the retries return, how often they call, and how long they sleep.
use music_fs.Base.{ℕ, zero, suc, ◌+◌, ◌<◌, ◌≡◌, ap, ◌∙◌, List, [], ◌∷◌, Result, ok, err, arith}
use music_fs.Core.Errors.{Error, max_retries_exceeded}
use music_fs.Origins.Failover.{RetryConfig, delay_for_attempt, retry_loop, with_retry}

-- The delays of `n` attempts that failed, from a first one on.
abbrev pub delays_from : RetryConfig → ℕ → ℕ → List ℕ
delays_from c zero attempt = []
delays_from c (suc n) attempt = delay_for_attempt c attempt ∷ delays_from c n (suc attempt)

-- Every one of `n` attempts fails, from a first one on.
abbrev pub Fail : (ℕ → Result Error (List ℕ)) → ℕ → ℕ → Type 0
Fail call zero attempt = Unit
Fail call (suc n) attempt = ((e : Error) × (call attempt ≡ err e)) × Fail call n (suc attempt)

module _ (c : RetryConfig) (call : ℕ → Result Error (List ℕ)) where
  -- A failed attempt that is not the last sleeps, and goes on.
  retry_step :
      (left attempt : ℕ) {e : Error} {slept : List ℕ} {result : Result Error (List ℕ)}
      → call attempt ≡ err e
      → suc attempt < c.max_attempts
      → retry_loop c call left (suc attempt) ≡ (slept, result)
      → retry_loop c call (suc left) attempt ≡ (delay_for_attempt c attempt ∷ slept, result)
  unfolding retry_loop
  retry_step left attempt failed more rest = ground (arith, failed, rest)

  loop_succeeds :
      (left attempt n : ℕ) {content : List ℕ}
      → attempt + left ≡ c.max_attempts
      → n < left
      → Fail call n attempt
      → call (attempt + n) ≡ ok content
      → retry_loop c call left attempt ≡ (delays_from c n attempt, ok content)
  unfolding retry_loop
  loop_succeeds zero attempt n e l f s = absurd (omega arith)
  loop_succeeds (suc left) attempt zero e l f s = ground (arith, s)
  loop_succeeds (suc left) attempt (suc n) e l ((x, failed), f) s =
      retry_step left attempt failed (omega arith) (
        loop_succeeds left (suc attempt) n (omega arith) (omega arith) f
          (ap call (omega arith) ∙ s))

  loop_fails :
      (left attempt : ℕ) {e : Error}
      → attempt + suc left ≡ c.max_attempts
      → Fail call left attempt
      → call (attempt + left) ≡ err e
      → retry_loop c call (suc left) attempt ≡ (delays_from c left attempt, err e)
  unfolding retry_loop
  loop_fails zero attempt p f s = ground (arith, s)
  loop_fails (suc left) attempt p ((x, failed), f) s =
      retry_step (suc left) attempt failed (omega arith)
        (loop_fails left (suc attempt) (omega arith) f (ap call (omega arith) ∙ s))

  -- The first attempt that succeeds within the limit is the result, and each failure before it
  -- slept its delay.
  pub with_retry_succeeds :
      (n : ℕ) {content : List ℕ}
      → n < c.max_attempts
      → Fail call n 0
      → call n ≡ ok content
      → with_retry c call ≡ (delays_from c n 0, ok content)
  unfolding with_retry
  with_retry_succeeds n l f s =
      loop_succeeds c.max_attempts 0 n (omega arith) l f (ap call (omega arith) ∙ s)

  -- If every attempt fails the result is the error of the last, after which there is no sleep.
  pub with_retry_fails :
      (n : ℕ) {e : Error}
      → c.max_attempts ≡ suc n
      → Fail call n 0
      → call n ≡ err e
      → with_retry c call ≡ (delays_from c n 0, err e)
  unfolding with_retry
  with_retry_fails n m f s =
      ap (λ (k : ℕ). retry_loop c call k 0) m
      ∙ loop_fails n 0 (omega arith) f (ap call (omega arith) ∙ s)

-- `Error::MaxRetriesExceeded` is the result only where no attempt is allowed at all, or where the
-- origin itself gave that error.
pub with_retry-max_retries :
    (c : RetryConfig) (call : ℕ → Result Error (List ℕ))
    → c.max_attempts ≡ 0
    → with_retry c call ≡ ([], err max_retries_exceeded)
unfolding with_retry retry_loop
with_retry-max_retries c call z = ap (λ (k : ℕ). retry_loop c call k 0) z
