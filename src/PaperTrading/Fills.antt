-- ===== src/PaperTrading/Fills.antt =====
-- The fill simulation, backend/app/paper_trading/fill_simulation: slippage.py, fees.py, engine.py.
use ratatoskr_v.Base.{is_some, if◌then◌else◌}
use ratatoskr_v.Domain.{Time, Side, Market, forex, options, is_buy, is_forex}
use ratatoskr_v.Decimal.{Decimal, of_ℕ, decimal_one, add, sub, mul, div, abs}
use ratatoskr_v.PaperTrading.{Config, Order, FillResult}

-- `SlippageModel.apply`: the price of execution, and the slippage per unit
unfoldable pub apply_slippage : Decimal → Side → Decimal → Decimal × Decimal
apply_slippage reference_price side slippage_bps =
    let bps_factor = div slippage_bps (of_ℕ 10000) in
    let execution_price =
      if is_buy side
      then mul reference_price (add decimal_one bps_factor)
      else mul reference_price (sub decimal_one bps_factor) in
    (execution_price, abs (sub execution_price reference_price))

-- `FeeModel.calculate`
unfoldable pub calculate_fee : Decimal → Market → Config → Decimal
calculate_fee gross_value forex c = div (mul gross_value c.fee_spread_bps_forex) (of_ℕ 10000)
calculate_fee gross_value options c = c.fee_per_trade_options
calculate_fee gross_value _ c = c.fee_per_trade_equities

-- `_get_slippage_bps`
unfoldable pub get_slippage_bps : Config → Order → Decimal
get_slippage_bps c o =
    if is_some o.underlying_symbol
    then c.slippage_bps_options
    else if is_forex o.market
    then c.slippage_bps_forex
    else c.slippage_bps_equities

-- `FillSimulationEngine.simulate`
unfoldable pub simulate : Config → Order → Decimal → Time → FillResult
simulate c o reference_price now =
    let slippage_bps = get_slippage_bps c o in
    let applied = apply_slippage reference_price o.side slippage_bps in
    let multiplier = of_ℕ o.contract_multiplier in
    let gross_value = mul (mul o.requested_qty (applied.0)) multiplier in
    let fee = calculate_fee gross_value o.market c in
    record {
      order_id = o.id;
      qty = o.requested_qty;
      reference_price = reference_price;
      price = applied.0;
      fee = fee;
      slippage_bps = slippage_bps;
      slippage_amount = mul (mul (applied.1) o.requested_qty) multiplier;
      gross_value = gross_value;
      net_value = if is_buy o.side then add gross_value fee else sub gross_value fee;
      filled_at = now;
    }
