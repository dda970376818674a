-- ===== src/Ingest/Level2/Snapshots.antt =====
-- internal/ingest/level2.go: which snapshots any history of the handler writes.
use funding_carry.Prelude.{
  ℕ, ◌<◌, ◌≤◌, List, [], ◌∷◌, ◌≡◌, refl, ◌∙◌, Option-cases, All, Option, none, some, String, arith,
  Bool-cases, inl, inr,
}
use funding_carry.Prelude.Sort.{AllPairs}
use funding_carry.Prelude.Int.{ltb_ℤ}
use funding_carry.Prelude.Text.{str_eq}
use funding_carry.Clock.{Time, time_sub, truncate, after}
use funding_carry.Decimal.{Decimal}
use funding_carry.Db.Rows.Market.{BookSnapshotRow}
use funding_carry.Ingest.Level2.{
  L2Event, Message, Handler, new_handler, reset, handle_own, handle_event, handle_events, handle,
  snapshot, tick, max_book_age,
}

-- What the stream does with its handler: a message, a reconnect, a tick.
pub data Op : Type 0 where
  handles : Message → Op
  resets : Op
  ticks : Time → Op

module _ {D : Type 0} ⦃dec : Decimal D⦄ (key : D → String) (parse : String → Option D) where
  abbrev pub written :
      Option (BookSnapshotRow D) → List (BookSnapshotRow D) → List (BookSnapshotRow D)
  written none rows = rows
  written (some r) rows = r ∷ rows

  -- The handler and the rows that it has submitted, the newest first.
  unfoldable pub run :
      Handler D × List (BookSnapshotRow D) → List Op → Handler D × List (BookSnapshotRow D)
  run (h, rows) [] = (h, rows)
  run (h, rows) (handles msg ∷ ops) = run ((handle key parse h msg).0, rows) ops
  run (h, rows) (resets ∷ ops) = run (reset h, rows) ops
  run (h, rows) (ticks now ∷ ops) = let next = tick h now in run (next.0, written next.1 rows) ops

  handle_own_last_snap :
      (h : Handler D) (t : Time) (e : L2Event)
      → (handle_own key parse h t e).0.last_snap ≡ h.last_snap
  unfolding handle_own
  handle_own_last_snap h t e = elim (Bool-cases (str_eq e.type "snapshot")) [
    | inl fresh ↦ rw fresh refl
    | inr update ↦ rw update (ground arith)
  ]

  handle_event_last_snap :
      (h : Handler D) (t : Time) (e : L2Event)
      → (handle_event key parse h t e).0.last_snap ≡ h.last_snap
  unfolding handle_event
  handle_event_last_snap h t e = ground (arith, handle_own_last_snap h t e)

  handle_events_last_snap :
      (h : Handler D) (t : Time) (es : List L2Event)
      → (handle_events key parse h t es).0.last_snap ≡ h.last_snap
  unfolding handle_events
  handle_events_last_snap h t [] = refl
  handle_events_last_snap h t (e ∷ es) =
      handle_events_last_snap (handle_event key parse h t e).0 t es ∙ handle_event_last_snap h t e

  handle_last_snap :
      (h : Handler D) (msg : Message) → (handle key parse h msg).0.last_snap ≡ h.last_snap
  unfolding handle
  handle_last_snap h msg = elim (Option-cases msg.events) [
    | inl undecoded ↦ rw (undecoded, handle) refl
    | inr (es, decoded) ↦ rw (decoded, handle) (handle_events_last_snap h msg.recv_ts es)
  ]

  -- The rows are stamped with falling boundaries, the handler's latest being at or past them all.
  abbrev pub IsOrdered : Handler D → List (BookSnapshotRow D) → Type 0
  IsOrdered h rows = All (λ r. r.ts ≤ h.last_snap) rows × AllPairs (λ r q. q.ts < r.ts) rows

  All-earlier :
      (a b : Time) (rows : List (BookSnapshotRow D))
      → a < b
      → All (λ r. r.ts ≤ a) rows
      → All (λ r. r.ts < b) rows × All (λ r. r.ts ≤ b) rows
  All-earlier a b [] p h = (tt, tt)
  All-earlier a b (r ∷ rows) p h =
      let rest = All-earlier a b rows p h.1 in
      ((omega (arith, h.0), rest.0), (omega (arith, h.0), rest.1))

  tick-IsOrdered :
      (h : Handler D) (rows : List (BookSnapshotRow D)) (now : Time)
      → IsOrdered h rows
      → IsOrdered (tick h now).0 (written (tick h now).1 rows)
  unfolding tick snapshot
  tick-IsOrdered h rows now o = elim (Bool-cases h.ready) [
    | inr unready ↦ rw unready o
    | inl ready ↦ rw ready (elim (Bool-cases (ltb_ℤ max_book_age (time_sub now h.last_update))) [
      | inl stale ↦ rw stale o
      | inr fresh ↦ rw fresh (elim (Bool-cases (after (truncate now h.interval) h.last_snap)) [
        | inr again ↦ rw again o
        | inl past ↦
            let rest = All-earlier h.last_snap (truncate now h.interval) rows (ground arith) o.0 in
            rw past ((omega arith, rest.1), (rest.0, o.1))
      ])
    ])
  ]

  run-IsOrdered :
      (h : Handler D) (rows : List (BookSnapshotRow D)) (ops : List Op)
      → IsOrdered h rows
      → IsOrdered (run (h, rows) ops).0 (run (h, rows) ops).1
  unfolding run reset
  run-IsOrdered h rows [] o = o
  run-IsOrdered h rows (handles msg ∷ ops) o =
      run-IsOrdered (handle key parse h msg).0 rows ops (rw (handle_last_snap h msg) o)
  run-IsOrdered h rows (resets ∷ ops) o = run-IsOrdered (reset h) rows ops o
  run-IsOrdered h rows (ticks now ∷ ops) o =
      let next = tick h now in
      run-IsOrdered next.0 (written next.1 rows) ops (tick-IsOrdered h rows now o)

  -- Over any history of a new handler, its reconnects included, the snapshots that it submits are
  -- stamped with strictly rising times, so no two rows have the same identity.
  pub run-rising :
      (product : String) (interval : ℕ) (ops : List Op)
      → AllPairs (λ r q. q.ts < r.ts) (run (new_handler product interval, []) ops).1
  unfolding new_handler
  run-rising product interval ops = (run-IsOrdered (new_handler product interval) [] ops (tt, tt)).1
