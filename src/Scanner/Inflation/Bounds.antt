-- ===== src/Scanner/Inflation/Bounds.antt =====
-- The block subsidy of src/scanner.rs over the heights.
use forkscanner.Prelude.{
  ℕ, suc, ◌+◌, ◌*◌, ◌/◌, ◌%◌, ◌^◌, ◌≤◌, ◌<◌, ◌≡◌, ◌∙◌, sym, ap, ◌↔◌, Bool, true, false, none, some,
  arith,
}
use native.Mathlib.Nat.{div-div-eq-div-mul, pow-succ'}
use forkscanner.Scanner.Inflation.{calc_max_inflation}

-- The subsidy of an interval.
abbrev halved : ℕ → ℕ
halved i = 5_000_000_000 / 2 ^ (i % 64)

halved_next : (i : ℕ) → i + 1 < 64 → halved (i + 1) ≡ halved i / 2
halved_next i small =
    let low : i % 64 ≡ i = omega (arith, small) in
    let next : (i + 1) % 64 ≡ i + 1 = omega (arith, small) in
    let up : i + 1 ≡ suc i = omega arith in
    let twice : 2 ^ suc i ≡ 2 ^ i * 2 = omega (arith, pow-succ' 2 i) in
    rw (low, next, up, twice) (sym (div-div-eq-div-mul 5_000_000_000 (2 ^ i) 2))

next_interval : (h : ℕ) → (h + 210_000) / 210_000 ≡ h / 210_000 + 1
next_interval h = omega arith

answers :
    (checked : Bool) (h : ℕ)
    → h < 13_440_000
    → calc_max_inflation checked h ≡ some (halved (h / 210_000))
unfolding calc_max_inflation
answers checked h small = ground (arith, small)

none_of : (h : ℕ) → calc_max_inflation true h ≡ none → 13_440_000 ≤ h
unfolding calc_max_inflation
none_of h e = ground (arith, e)

none_from : (h : ℕ) → 13_440_000 ≤ h → calc_max_inflation true h ≡ none
unfolding calc_max_inflation
none_from h late = ground (arith, late)

again : (h : ℕ) → calc_max_inflation false (h + 13_440_000) ≡ calc_max_inflation false h
unfolding calc_max_inflation
again h =
    let same : (h + 13_440_000) / 210_000 % 64 ≡ h / 210_000 % 64 = omega arith in
    ap (λ i. some (5_000_000_000 / 2 ^ i)) same

-- The subsidy is 50 BTC below the first halving, and half of it, rounded down, 210,000 blocks
-- later, up to the last block before the 64th halving. Where overflow is checked, the function
-- panics exactly from that halving on; where it is not, a height has the subsidy of the height 64
-- halvings below it, so that they start again from 50 BTC.
pub calc_max_inflation_halves :
    (checked : Bool) (h : ℕ)
    → (h < 210_000 → calc_max_inflation checked h ≡ some 5_000_000_000)
      × (h + 210_000 < 13_440_000
          → (x : ℕ) × (calc_max_inflation checked h ≡ some x)
            × (calc_max_inflation checked (h + 210_000) ≡ some (x / 2)))
      × ((calc_max_inflation true h ≡ none) ↔ (13_440_000 ≤ h))
      × (calc_max_inflation false (h + 13_440_000) ≡ calc_max_inflation false h)
calc_max_inflation_halves checked h = (
  λ early.
      let zeroth : h / 210_000 ≡ 0 = omega (arith, early) in
      answers checked h (omega (arith, early)) ∙ ap (λ i. some (halved i)) zeroth,
  λ small. (
    halved (h / 210_000),
    answers checked h (omega (arith, small)),
    answers checked (h + 210_000) small
        ∙ ap some (ap halved (next_interval h) ∙ halved_next (h / 210_000) (omega (arith, small))),
  ),
  (none_of h, none_from h),
  again h,
)
