-- ===== src/Assurance/Summary/Rates.antt =====
-- How exact the match rate of the reconciliation is.
use ra_backend.Base.{ℕ, zero, suc, ◌+◌, ◌*◌, ◌≤◌, ◌≡◌, refl, ap, ◌∙◌, ◌⊎◌, inl, inr, arith}
use ra_backend.Base.Doubles.Percent.{
  percent_bounded, percent_full, percent_not_above, percent_not_below,
}
use ra_backend.Assurance.Summary.{match_rate}

-- For at most as many matched records as records, the match rate, computed with floats and rounded,
-- is 100.00 at most, is 100.00 where there is no record or all match, and is within one hundredth
-- of the exact percentage.
pub match_rate_is_near :
    (matched total : ℕ)
    → matched ≤ total
    → (match_rate matched total ≤ 10000)
      × ((total ≡ 0) ⊎ (matched ≡ total) → match_rate matched total ≡ 10000)
      × (match_rate matched total * total ≤ 10000 * matched + total)
      × (10000 * matched ≤ match_rate matched total * total + total)
unfolding match_rate
match_rate_is_near matched zero part = (omega arith, λ _. refl, omega arith, omega arith)
match_rate_is_near matched (suc t) part = (
  percent_bounded matched (suc t) part (omega arith),
  full,
  percent_not_above matched (suc t) part (omega arith),
  percent_not_below matched (suc t) part (omega arith),
)
  where
    full : (suc t ≡ 0) ⊎ (matched ≡ suc t) → match_rate matched (suc t) ≡ 10000
    full (inl nothing) = absurd (omega arith)
    full (inr all) = ap (λ m. match_rate m (suc t)) all ∙ percent_full (suc t) (omega arith)
