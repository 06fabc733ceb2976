-- ===== src/PaperTrading/ForexPool.antt =====
-- The pool of forex accounts, backend/app/paper_trading/forex_pool: the repositories of
-- allocation.py, and `find_available_account`, `allocate`, `release` and the capacities of
-- `get_pool_status` in pool_manager.py.
pub mod Exclusive
use ratatoskr_v.Base.{
  ℕ, ◌+◌, ◌-◌, Bool, true, false, Option, none, some, List, [], ◌∷◌, ◌++◌, ◌&&◌, not, ◌==◌, ltb,
  if◌then◌else◌, find, count, select, update_first, length, is_some,
}
use ratatoskr_v.Domain.{Uid, Symbol, Time, Side}

-- `BrokerAccount`
pub record Account : Type 0 where
  pub id : Uid
  pub account_id : Uid
  pub is_active : Bool

-- `AccountAllocation`: `is_active` is `status == "active"`, the other status is `released`.
pub record Allocation : Type 0 where
  pub account_id : Uid
  pub strategy_id : Uid
  pub symbol : Symbol
  pub side : Side
  pub is_active : Bool
  pub allocated_at : Time
  pub released_at : Option Time

abbrev pub holds : Uid → Symbol → Allocation → Bool
holds account symbol a = a.account_id == account && a.symbol == symbol && a.is_active

-- `id.not_in(select account_id where symbol == … and status == "active")`
abbrev pub is_free : Symbol → List Allocation → Account → Bool
is_free symbol allocs x = x.is_active && not (is_some (find (holds x.id symbol) allocs))

-- `order_by(account_id.asc()).limit(1)`: of two rows the one with the smaller account id
abbrev pub smaller : Account → Option Account → Account
smaller x none = x
smaller x (some y) = if ltb y.account_id x.account_id then y else x

-- `get_available_for_symbol`
unfoldable pub find_available_account : Symbol → List Account → List Allocation → Option Account
find_available_account symbol [] allocs = none
find_available_account symbol (x ∷ xs) allocs =
    let rest = find_available_account symbol xs allocs in
    if is_free symbol allocs x then some (smaller x rest) else rest

unfoldable pub allocate : Uid → Uid → Symbol → Side → Time → List Allocation → List Allocation
allocate account strategy symbol side now allocs =
    allocs
    ++ record {
      account_id = account;
      strategy_id = strategy;
      symbol = symbol;
      side = side;
      is_active = true;
      allocated_at = now;
      released_at = none;
    }
      ∷ []

abbrev pub is_of : Uid → Symbol → Allocation → Bool
is_of strategy symbol a = a.strategy_id == strategy && a.symbol == symbol && a.is_active

abbrev pub released : Time → Allocation → Allocation
released now a = record a { is_active = false; released_at = some now }

-- `release`. The query is `scalar_one_or_none`: it raises where two allocations fit, `none`.
unfoldable pub release : Uid → Symbol → Time → List Allocation → Option (List Allocation)
release strategy symbol now allocs =
    if ltb 1 (count (is_of strategy symbol) allocs)
    then none
    else some (update_first (is_of strategy symbol) (released now) allocs)

abbrev pub occupies : Symbol → Allocation → Bool
occupies symbol a = a.symbol == symbol && a.is_active

-- The capacity of a pair in `get_pool_status`: occupied, and in total.
unfoldable pub pair_capacity : Symbol → List Account → List Allocation → ℕ × ℕ
pair_capacity symbol accounts allocs =
    (count (occupies symbol) allocs, count (λ x. x.is_active) accounts)
