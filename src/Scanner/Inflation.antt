-- ===== src/Scanner/Inflation.antt =====
-- `calc_max_inflation` of src/scanner.rs: the block subsidy at a height, in satoshi.
pub mod Bounds
use forkscanner.Prelude.{
  ℕ, ◌*◌, ◌/◌, ◌%◌, ◌^◌, Bool, not, ◌&&◌, Option, none, some, ltb, if◌then◌else◌,
}

-- SATOSHI_TO_BTC
abbrev pub satoshi_to_btc : ℕ
satoshi_to_btc = 100_000_000

abbrev pub halving_interval : ℕ
halving_interval = 210_000

-- A shift of an `i64` by 64 or more panics, `none`, where the build checks overflow (`checked`);
-- elsewhere only the low six bits of the distance count.
unfoldable pub calc_max_inflation : Bool → ℕ → Option ℕ
calc_max_inflation checked height =
    let interval = height / halving_interval in
    let reward = 50 * satoshi_to_btc in
    if checked && not (ltb interval 64) then none else some (reward / 2 ^ (interval % 64))
