-- ===== src/Asr/Delays.antt =====
-- How long the registry waits before the next attempt.
use voice_asset_server.Base.{
  ℕ, zero, suc, ◌-◌, ◌*◌, ◌/◌, ◌≤◌, ◌≡◌, refl, arith, ltb, if◌then◌else◌, Bool-cases, inl, inr,
}
use voice_asset_server.Asr.{RetryPolicy, doubled, retry_delay}

-- A delay that was doubled so many times, without a limit.
unfoldable pub backoff : ℕ → ℕ → ℕ
backoff zero delay = delay
backoff (suc n) delay = backoff n (delay * 2)

abbrev pub smaller : ℕ → ℕ → ℕ
smaller a b = if ltb a b then a else b

abbrev pub larger : ℕ → ℕ → ℕ
larger a b = if ltb b a then a else b

le-backoff : (n delay : ℕ) → delay ≤ backoff n delay
unfolding backoff
le-backoff zero delay = omega arith
le-backoff (suc n) delay = omega (arith, le-backoff n (delay * 2))

smaller-doubled :
    (n delay limit : ℕ) → smaller limit (doubled n delay limit) ≡ smaller limit (backoff n delay)
unfolding doubled backoff
smaller-doubled zero delay limit = refl
smaller-doubled (suc n) delay limit =
    let rest = smaller-doubled n (delay * 2) limit in
    let grows = le-backoff n (delay * 2) in
    elim (Bool-cases (ltb delay limit)) [
      | inr reached ↦ rw reached (ground arith)
      | inl below ↦ elim (Bool-cases (ltb (limit / 2) delay)) [
        | inl last ↦ rw (below, last) (ground arith)
        | inr fits ↦ rw (below, fits) rest
      ]
    ]

one_less : (n : ℕ) → suc n - 1 ≡ n
one_less n = omega arith

smaller-larger :
    (limit a b vendor : ℕ)
    → smaller limit a ≡ smaller limit b
    → smaller limit (larger vendor a) ≡ smaller limit (larger vendor b)
smaller-larger limit a b vendor h = ground arith

-- The delay is the base delay, doubled for each failed attempt but the first, or what the vendor asks for
-- if that is longer, and never more than the limit of the policy.
pub retry_delay-backoff :
    (policy : RetryPolicy) (failed vendor : ℕ)
    → retry_delay policy (suc failed) vendor
      ≡ smaller policy.max_delay (larger vendor (backoff failed policy.base_delay))
unfolding retry_delay
retry_delay-backoff policy failed vendor = rw (one_less failed) (
    smaller-larger policy.max_delay _ _ vendor
      (smaller-doubled failed policy.base_delay policy.max_delay))
