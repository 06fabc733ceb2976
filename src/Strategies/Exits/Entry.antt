-- ===== src/Strategies/Exits/Entry.antt =====
-- The entry price that the exits of strategies/runner.py read.
use ratatoskr_v.Base.{◌≡◌, refl, Bool, true, false, Option, some, List, not, arith}
use ratatoskr_v.Base.Int.{pos_part}
use ratatoskr_v.Decimal.{Decimal, decimal_zero, is_le}
use ratatoskr_v.Decimal.Sign.{
  IsPositive, IsZero, mul-IsZero_left, pos-mul_pow, IsNonneg-of_IsPositive,
}
use ratatoskr_v.MarketData.{Bar}
use ratatoskr_v.Portfolio.{PositionSide, long, short, is_long, Position}
use ratatoskr_v.Strategies.Exits.{
  percent, Rule, position_dict, entry_of, share_away, compute_stop_price, compute_take_profit,
  has_value, at_or_worse, at_or_better, stop_loss_fires, take_profit_fires,
}

above_zero :
    (close d : Decimal)
    → IsPositive close
    → IsZero d
    → (is_le close d ≡ false) × (is_le d close ≡ true)
unfolding is_le
above_zero close d h k =
    let large = pos-mul_pow (pos_part close.coef) d.scale h in
    let sign = IsNonneg-of_IsPositive close h in
    (rw (k, sign) (ground (arith)), rw (k, sign) (ground (arith)))

module _ (close value : Decimal) (positive : IsPositive close) (below : Bool) where
  beyond_zero :
      (is_le close (share_away below decimal_zero value) ≡ false)
      × (is_le (share_away below decimal_zero value) close ≡ true)
  beyond_zero = above_zero close _ positive (mul-IsZero_left decimal_zero _ refl)

at_or_worse-zero :
    (side : PositionSide) (close value : Decimal) (below : Bool)
    → IsPositive close
    → at_or_worse side close (share_away below decimal_zero value) ≡ not (is_long side)
unfolding at_or_worse
at_or_worse-zero long close value below h = (beyond_zero close value h below).0
at_or_worse-zero short close value below h = (beyond_zero close value h below).1

at_or_better-zero :
    (side : PositionSide) (close value : Decimal) (below : Bool)
    → IsPositive close
    → at_or_better side close (share_away below decimal_zero value) ≡ is_long side
unfolding at_or_better
at_or_better-zero long close value below h = (beyond_zero close value h below).1
at_or_better-zero short close value below h = (beyond_zero close value h below).0

-- The positions that the runner evaluates have no entry price under the key that the exits read, and
-- it counts as 0. So at every price above zero, and whatever the real entry price is, a stop loss in
-- percent never fires for a long position and always for a short one, and a take profit in percent
-- always fires for a long position and never for a short one.
pub position_dict-percent :
    (p : Position) (value close : Decimal) (other : Option Rule) (bars : List Bar)
    → IsPositive close
    → has_value (record { type = percent; value = some value }) ≡ true
    → (stop_loss_fires
          (some (record { type = percent; value = some value }))
          (position_dict p)
          close
          bars
        ≡ not (is_long p.side))
      × (take_profit_fires
            (some (record { type = percent; value = some value }))
            other
            (position_dict p)
            close
            bars
          ≡ is_long p.side)
unfolding stop_loss_fires take_profit_fires position_dict entry_of compute_stop_price
    compute_take_profit
position_dict-percent p value close other bars positive present = (
  rw present (at_or_worse-zero p.side close value _ positive),
  rw present (at_or_better-zero p.side close value _ positive),
)
