-- ===== src/Discovery/RoundRobin/Fairness.antt =====
-- Every endpoint gets its turn.
use web_cloud_disk.Base.{
  ℕ, zero, suc, ◌+◌, ◌-◌, ◌%◌, ◌^◌, ◌<◌, ◌≡◌, List, ◌∷◌, success, length, arith, ◌∙◌, sym, ap,
}
use native.Mathlib.Nat.{mod-lt, mod-eq_of_lt, mod-add-mod, add-mod-mod, add-mod_right}
use web_cloud_disk.Discovery.Endpoints.{ServiceEndpoint}
use web_cloud_disk.Discovery.RoundRobin.{get_or, select}

-- The counter after a number of calls on the same endpoints.
unfoldable pub counter_after : ℕ → ℕ → List ServiceEndpoint → ℕ
counter_after zero next es = next
counter_after (suc j) next es = counter_after j (select next es).0 es

counter_after-eq :
    (j next : ℕ) (e : ServiceEndpoint) (es : List ServiceEndpoint)
    → next + j < 2 ^ 64
    → counter_after j next (e ∷ es) ≡ next + j
unfolding counter_after select
counter_after-eq zero next e es h = omega arith
counter_after-eq (suc j) next e es h =
    let step : (next + 1) % 2 ^ 64 ≡ next + 1 = omega arith in
    rw step (counter_after-eq j (next + 1) e es (omega arith) ∙ omega arith)

-- The call at which index `i` is due, if the counter is `next` now and there are `m` endpoints.
turn : ℕ → ℕ → ℕ → ℕ
turn m next i = (i + (m - next % m)) % m

turn-mod : (m next i : ℕ) → 0 < m → i < m → (next + turn m next i) % m ≡ i
unfolding turn
turn-mod m next i p h =
    add-mod-mod next (i + (m - next % m)) m
    ∙ sym (mod-add-mod next m (i + (m - next % m)))
    ∙ ap (λ (t : ℕ). t % m) (omega (arith, mod-lt next p))
    ∙ add-mod_right i m
    ∙ mod-eq_of_lt h

turn_unique : (m next i k : ℕ) → 0 < m → k < m → (next + k) % m ≡ i → k ≡ turn m next i
unfolding turn
turn_unique m next i k p h e = sym (
    ap (λ (t : ℕ). (t + (m - next % m)) % m) (sym e ∙ sym (mod-add-mod next m k))
    ∙ mod-add-mod (next % m + k) m (m - next % m)
    ∙ ap (λ (t : ℕ). t % m) (omega (arith, mod-lt next p))
    ∙ add-mod_right k m
    ∙ mod-eq_of_lt h)

-- Among as many calls in a row as there are endpoints, with no wrap of the counter, there is exactly
-- one whose index is `i`, and it returns the endpoint at `i`.
pub select_fair :
    (next i : ℕ) (e : ServiceEndpoint) (es : List ServiceEndpoint)
    → i < length (e ∷ es)
    → next + length (e ∷ es) < 2 ^ 64
    → (j : ℕ) × (j < length (e ∷ es))
      × ((select (counter_after j next (e ∷ es)) (e ∷ es)).1 ≡ success (get_or (e ∷ es) i e))
      × ((k : ℕ)
          → k < length (e ∷ es)
          → counter_after k next (e ∷ es) % length (e ∷ es) ≡ i
          → k ≡ j)
unfolding select
select_fair next i e es h fits =
    let m : ℕ = suc (length es) in
    let j : ℕ = turn m next i in
    let small : j < m = unfold turn in mod-lt (i + (m - next % m)) (omega arith) in
    (
      j,
      small,
      rw (counter_after-eq j next e es (omega arith), turn-mod m next i (omega arith) h),
      λ k hk q.
          turn_unique m next i k (omega arith) hk
            (ap (λ (t : ℕ). t % m) (sym (counter_after-eq k next e es (omega arith))) ∙ q),
    )
