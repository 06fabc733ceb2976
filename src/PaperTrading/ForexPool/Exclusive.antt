-- ===== src/PaperTrading/ForexPool/Exclusive.antt =====
-- One position per pair and account: what `ForexPoolManager` (pool_manager.py) is there for.
use ratatoskr_v.Base.{
  ℕ, ◌+◌, ◌≤◌, ◌≡◌, Bool, true, none, some, List, [], ◌∷◌, find, count, update_first, arith,
  Option-cases, inl, inr, count-append, count-of_find-none,
}
use ratatoskr_v.Domain.{Uid, Symbol, Time, Side}
use ratatoskr_v.PaperTrading.ForexPool.{
  Account, Allocation, holds, is_free, find_available_account, allocate, is_of, released, release,
}

-- The number of active allocations of a pair on an account.
abbrev pub load : Uid → Symbol → List Allocation → ℕ
load account symbol = count (holds account symbol)

-- No account carries a pair twice.
abbrev pub IsExclusive : List Allocation → Type 0
IsExclusive allocs = (account : Uid) (symbol : Symbol) → load account symbol allocs ≤ 1

find_available_account-is_free :
    (symbol : Symbol) (xs : List Account) (allocs : List Allocation) {x : Account}
    → find_available_account symbol xs allocs ≡ some x
    → is_free symbol allocs x ≡ true
unfolding find_available_account
find_available_account-is_free symbol [] allocs h = cc
find_available_account-is_free symbol (y ∷ ys) allocs {x} h =
    elim (Option-cases (find_available_account symbol ys allocs)) [
      | inl nobody ↦ ground arith
      | inr (z, e) ↦ ground (arith, find_available_account-is_free symbol ys allocs {x = z} e)
    ]

-- An account that is found available is active and carries the pair not at all.
available-load :
    (symbol : Symbol) (xs : List Account) (allocs : List Allocation) {x : Account}
    → find_available_account symbol xs allocs ≡ some x
    → load x.id symbol allocs ≡ 0
available-load symbol xs allocs {x} h = ground (
  arith,
  find_available_account-is_free symbol xs allocs {x = x} h,
  count-of_find-none (holds x.id symbol) allocs,
)

-- Allocating the account that was found available keeps the pool exclusive: no account carries a
-- pair twice.
pub allocate-IsExclusive :
    (symbol : Symbol) (xs : List Account) (allocs : List Allocation) (x : Account) (strategy : Uid)
    (side : Side) (now : Time)
    → find_available_account symbol xs allocs ≡ some x
    → IsExclusive allocs
    → IsExclusive (allocate x.id strategy symbol side now allocs)
unfolding allocate
allocate-IsExclusive symbol xs allocs x strategy side now h ex account pair =
    let fresh : Allocation = record {
      account_id = x.id;
      strategy_id = strategy;
      symbol = symbol;
      side = side;
      is_active = true;
      allocated_at = now;
      released_at = none;
    } in
    rw (count-append (holds account pair) allocs (fresh ∷ []))
      (ground (arith, ex account pair, available-load symbol xs allocs {x = x} h))

-- Releasing never adds load.
release-load :
    (p : Allocation → Bool) (account : Uid) (symbol : Symbol) (now : Time)
    (allocs : List Allocation)
    → load account symbol (update_first p (released now) allocs) ≤ load account symbol allocs
release-load p account symbol now [] = omega arith
release-load p account symbol now (a ∷ allocs) =
    ground (arith, release-load p account symbol now allocs)

-- A release that does not raise keeps the pool exclusive: no account carries a pair twice.
pub release-IsExclusive :
    (strategy : Uid) (symbol : Symbol) (now : Time) (allocs : List Allocation)
    {rest : List Allocation}
    → release strategy symbol now allocs ≡ some rest
    → IsExclusive allocs
    → IsExclusive rest
unfolding release
release-IsExclusive strategy symbol now allocs {rest} h ex account pair =
    ground (arith, release-load (is_of strategy symbol) account pair now allocs, ex account pair)

-- In an exclusive pool, after a release that does not raise, the account that carried the pair for
-- the strategy carries it no longer.
release-load_zero :
    (strategy : Uid) (symbol : Symbol) (now : Time) (a : Allocation) (allocs : List Allocation)
    {rest : List Allocation}
    → find (is_of strategy symbol) allocs ≡ some a
    → release strategy symbol now allocs ≡ some rest
    → IsExclusive allocs
    → load a.account_id symbol rest ≡ 0
unfolding release
release-load_zero strategy symbol now a allocs {rest} found h ex =
    ground (arith, ex a.account_id symbol, released_load allocs found)
  where
    released_load :
        (l : List Allocation)
        → find (is_of strategy symbol) l ≡ some a
        → load a.account_id symbol (update_first (is_of strategy symbol) (released now) l) + 1
          ≡ load a.account_id symbol l
    released_load [] e = cc
    released_load (x ∷ l) e = ground (arith, released_load l)
