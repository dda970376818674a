-- ===== src/Exec/Tracker.antt =====
-- internal/exec/statemachine.go, `Tracker`: the orders of one venue, and the operations on them.
-- Each operation holds the tracker's mutex throughout, so it is one step of the state.
-- The log lines of the source are not part of the state.
pub mod Invariant
pub mod History
pub mod Steps
pub mod Follow
pub mod Replay
pub mod Progress
pub mod Race
pub mod Timeouts
pub mod Query
pub mod Quantity
use funding_carry.Prelude.{
  ℕ, suc, List, [], ◌∷◌, Option, none, some, String, Bool, true, not, ◌&&◌, if◌then◌else◌,
}
use funding_carry.Decimal.{Decimal}
use funding_carry.Clock.{Time}
use funding_carry.Dict.{lookup, insert, delete}
use funding_carry.Carry.{Order, Ack, ExecReport}
use funding_carry.Exec.Status.{Status, terminal, overdue, Outcome, applied, adopted}
use funding_carry.Exec.Metrics.{VenueMetrics}
use funding_carry.Exec.Metrics
use funding_carry.Exec.Orders.{Tracked, submitted, complete, adopt, apply_to}

pub record Tracker (D : Type 0) : Type 0 where
  pub timeout : ℕ
  pub metrics : VenueMetrics
  pub orders : List (String × Tracked D)

pub data TrackError : Type 0 where
  already_tracked : String → TrackError

-- `new_tracker` is NewTracker, for a timeout in nanoseconds.
unfoldable pub new_tracker : {D : Type 0} → ℕ → Tracker D
new_tracker timeout = record { timeout = timeout; metrics = Metrics.venue; orders = [] }

module _ {D : Type 0} where
  unfoldable pub count_open : List (String × Tracked D) → ℕ
  count_open [] = 0
  count_open ((_, o) ∷ rest) = let n = count_open rest in if terminal o.status then n else suc n

module _ {D : Type 0} ⦃dec : Decimal D⦄ where
  pub track_found : Tracker D → Order D → Ack → Option (Tracked D) → Tracker D × Option TrackError
  track_found t o ack (some existing) =
      if existing.was_adopted
      then (let (o', m) = complete t.timeout t.metrics existing o ack in
          (record t { orders = insert o.cl_ord_id o' t.orders; metrics = m }, none))
      else (t, some (already_tracked o.cl_ord_id))
  track_found t o ack none =
      let orders = insert o.cl_ord_id (submitted t.timeout o ack) t.orders in
      (
        record t { orders = orders; metrics = Metrics.observe_open t.metrics (count_open orders) },
        none,
      )

  unfoldable pub track : Tracker D → Order D → Ack → Tracker D × Option TrackError
  unfolding track_found
  track t o ack = track_found t o ack (lookup o.cl_ord_id t.orders)

  -- The end of `Apply`: what is kept of the order, and the report counted under its outcome.
  pub settle : Tracker D → List (String × Tracked D) → VenueMetrics → Outcome → Tracker D
  settle t orders m outcome = record t {
    orders = orders;
    metrics = Metrics.observe_open (Metrics.report m outcome) (count_open orders);
  }

  -- An adoption is undone where its report was not applied.
  pub adopted_orders :
      List (String × Tracked D) → String → Tracked D → Outcome → List (String × Tracked D) × Outcome
  adopted_orders orders id o applied = (insert id o orders, adopted)
  adopted_orders orders id o outcome = (delete id orders, outcome)

  pub apply_found : Tracker D → ExecReport D → Option (Tracked D) → Tracker D × Status D × Outcome
  unfolding settle adopted_orders
  apply_found t r (some o) =
      let (o', outcome, m) = apply_to t.metrics o r in
      (settle t (insert r.cl_ord_id o' t.orders) m outcome, o'.status, outcome)
  apply_found t r none =
      let o = adopt t.timeout r in
      let (o', result, m) = apply_to t.metrics o r in
      let (orders, outcome) =
        adopted_orders (insert r.cl_ord_id o t.orders) r.cl_ord_id o' result in
      (settle t orders m outcome, o'.status, outcome)

  unfoldable pub apply : Tracker D → ExecReport D → Tracker D × Status D × Outcome
  unfolding apply_found
  apply t r = apply_found t r (lookup r.cl_ord_id t.orders)

module _ {D : Type 0} where
  -- Open, and overdue at the instant.
  unfoldable pub is_late : Time → Tracked D → Bool
  unfolding terminal overdue
  is_late now o = not (terminal o.status) && overdue o.status now

  -- One round of the loop of Observe: a missed acknowledgement is counted once for each order.
  unfoldable pub observe_order : Time → VenueMetrics → Tracked D → Tracked D × VenueMetrics
  observe_order now m o =
      if is_late now o
      then if o.ack_timed_out
        then (o, m)
        else (record o { ack_timed_out = true }, Metrics.ack_timed_out m o.leg)
      else (o, m)

  -- The loop of Observe: the orders, how many are open, how many of them overdue.
  unfoldable pub observe_orders :
      Time
      → VenueMetrics
      → List (String × Tracked D)
      → List (String × Tracked D) × ℕ × ℕ × VenueMetrics
  observe_orders now m [] = ([], 0, 0, m)
  observe_orders now m ((id, o) ∷ rest) =
      let (o', m') = observe_order now m o in
      let (rest', n, k, m'') = observe_orders now m' rest in
      (
        (id, o') ∷ rest',
        if terminal o.status then n else suc n,
        if is_late now o then suc k else k,
        m'',
      )

  unfoldable pub observe : Tracker D → Time → Tracker D
  observe t now =
      let (orders, n, k, m) = observe_orders now t.metrics t.orders in
      record t { orders = orders; metrics = Metrics.observe_overdue (Metrics.observe_open m n) k }
