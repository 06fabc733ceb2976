-- ===== src/PaperTrading/Service/Journey.antt =====
-- The way of a signal through the risk engine (risk/service.py) and the paper trading service
-- (paper_trading/service.py), from pending to its end.
use ratatoskr_v.Base.{
  ◌≤◌, ◌≡◌, ◌≢◌, inl, inr, sym, ap, subst, ◌∙◌, true, not, ◌&&◌, is_some, find, Option, some, List,
  [], ◌∷◌, ◌++◌, count, arith, count-append,
}
use ratatoskr_v.Domain.{Uid}
use ratatoskr_v.Signals.{
  Signal, Status, Table, pending, order_filled, order_rejected, get_by_id, update_status,
  with_status, allowed,
}
use ratatoskr_v.Signals.Service.{update_signal_status}
use ratatoskr_v.Risk.{Context}
use ratatoskr_v.Risk.Checks.{Check}
use ratatoskr_v.Risk.Pipeline.{
  Decision, is_decision_of, Verdict, approved, modified, State, decide, decide_run, decide_exit,
  evaluate_signal, signal_status,
}
use ratatoskr_v.Risk.Pipeline as Pipeline
use ratatoskr_v.Risk.Pipeline.Effects.{evaluate_signal-pending}
use ratatoskr_v.PaperTrading.{Order, OrderStatus, filled}
use ratatoskr_v.PaperTrading.Service.{
  Environment, Call, Desk, is_order_of, has_order, set_signal, process_signal,
}
use ratatoskr_v.PaperTrading.Service.Outcomes.{has_order_id, is_ready, IsSettled, ready-IsSettled}

get_by_id-update_status :
    (i : Uid) (st : Status) (t : Table) {s : Signal}
    → get_by_id i t ≡ some s
    → get_by_id i (update_status i st t) ≡ some (with_status st s)
unfolding get_by_id update_status
get_by_id-update_status i st [] {s} h = cc
get_by_id-update_status i st (x ∷ t) {s} h = ground (arith, get_by_id-update_status i st t {s = s})

decide-signal_id :
    (ks : List Check) (s : Signal) (context : Option Context)
    → (decide ks s context).signal_id ≡ s.id
unfolding decide decide_run decide_exit
decide-signal_id ks s context = ground arith

-- The tables when the risk engine has evaluated the signal.
abbrev pub ruled : List Check → Signal → Option Context → Desk → Desk
ruled ks s context d =
    let st =
      (evaluate_signal ks s context (record { signals = d.signals; decisions = d.decisions })).1 in
    record d { signals = st.signals; decisions = st.decisions }

-- The row of the signal then.
abbrev pub ruled_signal : List Check → Signal → Option Context → Signal
ruled_signal ks s context = with_status (signal_status (decide ks s context).status) s

-- The status that a signal ends with.
abbrev pub end_status : OrderStatus → Status
end_status filled = order_filled
end_status _ = order_rejected

set_signal_lem :
    (i : Uid) (st : Status) (t : Table) {s : Signal}
    → get_by_id i t ≡ some s
    → allowed s.status st ≡ true
    → get_by_id i (set_signal i st t) ≡ some (with_status st s)
unfolding set_signal update_signal_status
set_signal_lem i st t {s} h ok =
    rw (h, update_signal_status, set_signal, ok) (get_by_id-update_status i st t {s = s} h)

-- The status and the count of decisions that a ruling leaves behind.
ruled_lem :
    (ks : List Check) (s : Signal) (context : Option Context) (d : Desk)
    → get_by_id s.id d.signals ≡ some s
    → s.status ≡ pending
    → count (is_decision_of s.id) d.decisions ≡ 0
    → ruled ks s context d ≡ record d {
      signals = update_status s.id (signal_status (decide ks s context).status) d.signals;
      decisions = d.decisions ++ decide ks s context ∷ [];
    }
ruled_lem ks s context d found waits undecided =
    ap (λ x. record d { signals = x.1.signals; decisions = x.1.decisions })
      (evaluate_signal-pending ks s context
        (record { signals = d.signals; decisions = d.decisions }) found waits undecided)

one_decision :
    (ks : List Check) (s : Signal) (context : Option Context) (ds : List Decision)
    → count (is_decision_of s.id) ds ≡ 0
    → count (is_decision_of s.id) (ds ++ decide ks s context ∷ []) ≤ 1
one_decision ks s context ds h =
    rw (count-append (is_decision_of s.id) ds (decide ks s context ∷ [])) (ground arith)

is_decided :
    (ks : List Check) (s : Signal) (context : Option Context) (ds : List Decision)
    → is_some (find (is_decision_of s.id) (ds ++ decide ks s context ∷ [])) ≡ true
is_decided ks s context [] = ground (arith, decide-signal_id ks s context)
is_decided ks s context (x ∷ ds) = ground (arith, is_decided ks s context ds)

is_ready-ruled :
    (ks : List Check) (s : Signal) (context : Option Context) (d : Desk)
    → count (is_order_of s.id) d.orders ≡ 0
    → is_some (find (is_decision_of s.id) (d.decisions ++ decide ks s context ∷ []))
        && not (has_order s.id d.orders)
      ≡ true
is_ready-ruled ks s context d h = ground (arith, is_decided ks s context d.decisions)

may_end :
    (v : Verdict) (end : OrderStatus)
    → v ≢ Pipeline.rejected
    → allowed (signal_status v) (end_status end) ≡ true
unfolding allowed
may_end v end h = ground arith

-- What `process_signal` leaves of the row of the signal, by the status of the order.
marked-end :
    (s : Signal) (row : Signal) (t next : Table) (i : Uid) (st end : Status)
    → get_by_id s.id t ≡ some row
    → allowed row.status end ≡ true
    → next ≡ set_signal i st t
    → i ≡ s.id
    → end ≡ st
    → get_by_id s.id next ≡ some (with_status end row)
marked-end s row t next i st end found ok marked same e =
    ap (get_by_id s.id) (marked ∙ ap (λ j. set_signal j st t) same)
    ∙ set_signal_lem s.id st t {s = row} found (subst (λ x. allowed row.status x ≡ true) e ok)
    ∙ ap (λ x. some (with_status x row)) (sym e)

settled-end :
    (s : Signal) (row : Signal) (d : Desk) (o : Order) (next : Desk)
    → get_by_id s.id d.signals ≡ some row
    → allowed row.status (end_status o.status) ≡ true
    → IsSettled s d (o, next)
    → get_by_id s.id next.signals ≡ some (with_status (end_status o.status) row)
settled-end s row d o next found ok (r, inl f) =
    marked-end s row d.signals next.signals o.signal_id order_filled (end_status o.status) found ok
      f.signal_filled r.of_signal (ap end_status f.is_filled)
settled-end s row d o next found ok (r, inr f) =
    marked-end s row d.signals next.signals o.signal_id order_rejected (end_status o.status) found
      ok f.signal_rejected r.of_signal (ap end_status f.is_rejected)

-- A pending signal that has neither a risk decision nor an order yet, and that the risk engine does
-- not reject, is processed by the paper trading service: whatever the executors answer, `process_signal` returns
-- one settled order, and the row of the signal, which only its status tells from the pending one,
-- is `order_filled` where the order is filled and `order_rejected` where it is not. The id of the
-- order is new.
pub process_signal-ruled :
    (ks : List Check) (context : Option Context) (env : Environment) (k : Call) (s : Signal)
    (d : Desk)
    → get_by_id s.id d.signals ≡ some s
    → s.status ≡ pending
    → count (is_decision_of s.id) d.decisions ≡ 0
    → count (is_order_of s.id) d.orders ≡ 0
    → count (has_order_id k.order_id) d.orders ≡ 0
    → (decide ks s context).status ≢ Pipeline.rejected
    → (p : Order × Desk) × (process_signal env k (ruled_signal ks s context) (ruled ks s context d)
        ≡ some p)
      × IsSettled (ruled_signal ks s context) (ruled ks s context d) p
      × (get_by_id s.id p.1.signals ≡ some (with_status (end_status p.0.status) s))
process_signal-ruled ks context env k s d found waits undecided unordered fresh not_rejected =
    let now = ruled ks s context d in
    let row = ruled_signal ks s context in
    let same = ruled_lem ks s context d found waits undecided in
    let (p, ran, settled) =
      ready-IsSettled env k row now
        (subst (λ x. count (is_decision_of s.id) x.decisions ≤ 1) (sym same)
          (one_decision ks s context d.decisions undecided))
        (subst (λ x. count (has_order_id k.order_id) x.orders ≡ 0) (sym same) fresh)
        (subst (λ x. is_ready row x ≡ true) (sym same) (is_ready-ruled ks s context d unordered)) in
    (
      p,
      ran,
      settled,
      settled-end row row now p.0 p.1
          (ap (λ x. get_by_id s.id x.signals) same
            ∙ get_by_id-update_status s.id (signal_status (decide ks s context).status) d.signals
                {s = s} found)
          (may_end (decide ks s context).status p.0.status not_rejected) settled,
    )
