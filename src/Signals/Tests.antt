-- ===== src/Signals/Tests.antt =====
-- The signals module on a small table.
use ratatoskr_v.Base.{
  ◌≡◌, refl, true, none, some, List, [], ◌∷◌, arith, is_some, ◌+◌, ◌*◌, ◌≤◌, inl,
}
use ratatoskr_v.Domain.{Time, buy, entry, Source, equities, m5, second, minute}
use ratatoskr_v.Signals.{
  Signal, Table, Owner, Config, pending, order_filled, canceled, timeframe_minutes, risk_approved,
}
use ratatoskr_v.Signals.Service.{
  Request, service, create_signal, call, calls, update, cancel, cancel_strategy, expire,
  signal_transition, err, update_signal_status,
}
use ratatoskr_v.Signals.Lifecycle.{Has, Evolves, calls-Has, call-Evolves}
use ratatoskr_v.Signals.Dedup.{create_signal-repeat, at_time}

abbrev config : Config
config = record { dedup_window_bars = 1; default_expiry_seconds = 300 }

abbrev owners : List Owner
owners = record { strategy_id = 7; user_id = 1 } ∷ []

abbrev start : Time
start = 1000000000

abbrev request : Request
request = record {
  strategy_id = some 7;
  strategy_version = some 1;
  symbol = some 50;
  market = equities;
  timeframe = some m5;
  side = some buy;
  signal_type = some entry;
  source = some Source.strategy;
  ts = some start;
}

abbrev made : Table
made = (create_signal config owners 1 start request []).1

abbrev filled : Signal
filled = record {
  id = 1;
  strategy_id = 7;
  symbol = 50;
  market = equities;
  timeframe = m5;
  side = buy;
  signal_type = entry;
  source = Source.strategy;
  status = order_filled;
  ts = start;
  expires_at = some 1600000000;
  created_at = start;
}

created :
    create_signal config owners 1 start request []
    ≡ (some (record filled { status = pending }), record filled { status = pending } ∷ [])
unfolding service
created = refl

lived :
    calls config owners (update 1 risk_approved ∷ update 1 order_filled ∷ cancel 1 1 ∷ []) made
    ≡ filled ∷ []
unfolding service
lived = refl

refused : update_signal_status 1 pending (filled ∷ []) ≡ err (signal_transition order_filled)
unfolding service
refused = refl

calls-Has_example :
    Has filled (calls config owners (cancel_strategy 7 ∷ update 1 canceled ∷ []) (filled ∷ []))
calls-Has_example =
    calls-Has config owners (cancel_strategy 7 ∷ update 1 canceled ∷ []) filled (filled ∷ []) refl
      (inl refl)

call-Evolves_example : Evolves made (call config owners (expire (start + start)) made)
call-Evolves_example = call-Evolves config owners (expire (start + start)) made

in_window : start + second ≤ start + timeframe_minutes m5 * config.dedup_window_bars * minute
unfolding service
in_window = omega arith

is_made : is_some (create_signal config owners 1 start request []).0 ≡ true
unfolding service
is_made = refl

create_signal-repeat_example :
    create_signal config owners 2 (start + second) (at_time (start + second) request) made
    ≡ (none, made)
create_signal-repeat_example =
    create_signal-repeat config owners 1 2 start (start + second) (start + second) request []
      {kind = entry} {tf = m5} refl refl refl refl (omega arith) in_window is_made
