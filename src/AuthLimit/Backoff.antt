-- ===== src/AuthLimit/Backoff.antt =====
-- src/authlimit.c: the growth of the delay, and what a failed attempt does to the next one.
use beaver_mq.Prelude.{ℕ, zero, suc, ◌-◌, ◌*◌, ◌≡◌, refl, sym, ap, ltb, if◌then◌else◌}
use beaver_mq.AuthLimit.Table.{base_ms, max_ms, free_attempts, doubled, delay_of}

abbrev pub min : ℕ → ℕ → ℕ
min a b = if ltb a b then a else b

-- The policy: half a second at first, twice as much each time, 30 seconds at most.
unfoldable pub backoff : ℕ → ℕ
backoff zero = base_ms
backoff (suc n) = min max_ms (2 * backoff n)

doubled-stop : (rounds : ℕ) → doubled rounds 32000 ≡ 32000
unfolding doubled
doubled-stop zero = refl
doubled-stop (suc rounds) = refl

backoff-max : (n : ℕ) → backoff (suc (suc (suc (suc (suc (suc n)))))) ≡ max_ms
unfolding backoff
backoff-max zero = refl
backoff-max (suc n) = rw (backoff-max n) refl

-- The loop and the cap after it.
doubled-backoff :
    (m : ℕ) → (if ltb max_ms (doubled m base_ms) then max_ms else doubled m base_ms) ≡ backoff m
unfolding doubled backoff
doubled-backoff zero = refl
doubled-backoff (suc zero) = refl
doubled-backoff (suc (suc zero)) = refl
doubled-backoff (suc (suc (suc zero))) = refl
doubled-backoff (suc (suc (suc (suc zero)))) = refl
doubled-backoff (suc (suc (suc (suc (suc zero))))) = refl
doubled-backoff (suc (suc (suc (suc (suc (suc m)))))) = rw (doubled-stop m) (sym (backoff-max m))

-- Five failures cost nothing; from the sixth on the delay is that of the policy.
pub delay_of_lem :
    (n : ℕ) → delay_of n ≡ (if ltb free_attempts n then backoff (n - free_attempts - 1) else 0)
unfolding delay_of
delay_of_lem n =
    ap (λ d. if ltb free_attempts n then d else 0) (doubled-backoff (n - free_attempts - 1))
