-- ===== src/PaperTrading/Quantity.antt =====
-- The quantity of an order, `_determine_qty` of backend/app/paper_trading/service.py.
pub mod Modified
use ratatoskr_v.Base.{ℕ, ◌≡◌, Bool, true, false, Option, none, some, if◌then◌else◌, or_else}
use ratatoskr_v.Domain.{Market, equities, options}
use ratatoskr_v.Decimal.{Decimal, of_ℕ, decimal_zero, sub, mul, div, abs, is_lt, max, trunc}
use ratatoskr_v.Risk.{
  Method, fixed_qty, fixed_dollar, percent_equity, risk_based, Sizing, Key, Modifications, get,
  money,
}
use ratatoskr_v.PaperTrading.{Config}

-- The quantity by the method of the strategy. `none` is the early `return Decimal("0")`.
unfoldable pub base_qty : Config → Sizing → Decimal → Method → Option Decimal
base_qty c z reference_price fixed_qty = some (or_else z.value (of_ℕ 100))
base_qty c z reference_price fixed_dollar =
    if is_lt decimal_zero reference_price
    then some (div (or_else z.value (of_ℕ 100)) reference_price)
    else none
base_qty c z reference_price percent_equity =
    let dollar_value = div (mul c.initial_cash (or_else z.value (of_ℕ 100))) (of_ℕ 100) in
    if is_lt decimal_zero reference_price then some (div dollar_value reference_price) else none
base_qty c z reference_price risk_based =
    let risk_per_share = abs (sub reference_price (or_else z.stop_price decimal_zero)) in
    let risk_amount = div (mul c.initial_cash (or_else z.risk_percent (of_ℕ 1))) (of_ℕ 100) in
    if is_lt decimal_zero risk_per_share then some (div risk_amount risk_per_share) else none
base_qty c z reference_price Method.other = some (or_else z.value (of_ℕ 100))

-- Whole shares and whole contracts.
unfoldable pub round_qty : Market → Decimal → Decimal
round_qty equities qty = trunc qty
round_qty options qty = trunc qty
round_qty _ qty = qty

-- The quantity that the risk decision asks for, the key `qty` of its modifications. A value that
-- is not a number, which raises in Python, counts as missing.
unfoldable pub modified_qty : Modifications → Option Decimal
modified_qty mods = elim (get Key.qty mods) [ some (money d) ↦ some d | _ ↦ none ]

-- `_determine_qty`
unfoldable pub determine_qty : Config → Market → Modifications → Sizing → Decimal → Decimal
determine_qty c market mods z reference_price = elim (modified_qty mods) [
  | some d ↦ d
  | none ↦ elim (base_qty c z reference_price (or_else z.method fixed_qty)) [
    | none ↦ decimal_zero
    | some qty ↦ max (round_qty market qty) decimal_zero
  ]
]
