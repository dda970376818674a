-- ===== src/Ingest/Level2/Readiness.antt =====
-- internal/ingest/level2.go: a book without the venue's snapshot is never written.
use funding_carry.Prelude.{
  List, [], ◌∷◌, ◌≡◌, ◌≢◌, refl, ◌∙◌, Option-cases, All, Option, none, some, String, false, arith,
  Bool-cases, inl, inr,
}
use funding_carry.Prelude.Text.{str_eq, eq_iff}
use funding_carry.Clock.{Time}
use funding_carry.Decimal.{Decimal}
use funding_carry.Db.Rows.Market.{BookSnapshotRow}
use funding_carry.Ingest.Level2.{
  L2Event, Message, Handler, reset, handle_own, handle_event, handle_events, handle, tick,
}
use funding_carry.Ingest.Level2.Snapshots.{Op, handles, resets, ticks, run}

-- No event of the product is a snapshot of its book.
abbrev IsNoSnapshot : String → L2Event → Type 0
IsNoSnapshot product e = e.product_id ≡ product → e.type ≢ "snapshot"

abbrev NoSnapshots : String → Option (List L2Event) → Type 0
NoSnapshots product none = Unit
NoSnapshots product (some es) = All (IsNoSnapshot product) es

abbrev pub IsUpdate : String → Op → Type 0
IsUpdate product (handles msg) = NoSnapshots product msg.events
IsUpdate product resets = Unit
IsUpdate product (ticks now) = Unit

module _ {D : Type 0} ⦃dec : Decimal D⦄ (key : D → String) (parse : String → Option D) where
  -- The handler of a product, without a book.
  abbrev IsUnready : String → Handler D → Type 0
  IsUnready product h = (h.ready ≡ false) × (h.product ≡ product)

  handle_event-IsUnready :
      (product : String) (h : Handler D) (t : Time) (e : L2Event)
      → IsUnready product h
      → IsNoSnapshot product e
      → IsUnready product (handle_event key parse h t e).0
  unfolding handle_event handle_own
  handle_event-IsUnready product h t e u n = elim (Bool-cases (str_eq e.product_id h.product)) [
    | inr other ↦ rw other u
    | inl own ↦ elim (Bool-cases (str_eq e.type "snapshot")) [
      | inl fresh ↦
          absurd
            (n ((eq_iff e.product_id h.product).0 own ∙ u.1) ((eq_iff e.type "snapshot").0 fresh))
      | inr update ↦ rw own (rw update (ground arith))
    ]
  ]

  handle_events-IsUnready :
      (product : String) (h : Handler D) (t : Time) (es : List L2Event)
      → IsUnready product h
      → All (IsNoSnapshot product) es
      → IsUnready product (handle_events key parse h t es).0
  unfolding handle_events
  handle_events-IsUnready product h t [] u n = u
  handle_events-IsUnready product h t (e ∷ es) u n =
      handle_events-IsUnready product (handle_event key parse h t e).0 t es
        (handle_event-IsUnready product h t e u n.0) n.1

  handle-IsUnready :
      (product : String) (h : Handler D) (msg : Message)
      → IsUnready product h
      → NoSnapshots product msg.events
      → IsUnready product (handle key parse h msg).0
  unfolding handle
  handle-IsUnready product h msg u n = elim (Option-cases msg.events) [
    | inl undecoded ↦ rw (undecoded, handle) u
    | inr (es, decoded) ↦
        rw (decoded, handle)
          (handle_events-IsUnready product h msg.recv_ts es u (rw (decoded, NoSnapshots) at n))
  ]

  tick_unready : (h : Handler D) (now : Time) → h.ready ≡ false → tick h now ≡ (h, none)
  unfolding tick
  tick_unready h now u = ground arith

  run-IsUnready :
      (product : String) (h : Handler D) (rows : List (BookSnapshotRow D)) (ops : List Op)
      → IsUnready product h
      → All (IsUpdate product) ops
      → (run key parse (h, rows) ops).1 ≡ rows
  unfolding run reset
  run-IsUnready product h rows [] u n = refl
  run-IsUnready product h rows (handles msg ∷ ops) u n =
      run-IsUnready product (handle key parse h msg).0 rows ops
        (handle-IsUnready product h msg u n.0) n.1
  run-IsUnready product h rows (resets ∷ ops) u n =
      run-IsUnready product (reset h) rows ops (refl, u.1) n.1
  run-IsUnready product h rows (ticks now ∷ ops) u n =
      rw (tick_unready h now u.0) (run-IsUnready product h rows ops u n.1)

  -- A handler without a book, as after a reconnect, submits nothing for as long as no message has a
  -- snapshot of its product's book, whatever updates, reconnects and ticks there are.
  pub run-silent :
      (h : Handler D) (rows : List (BookSnapshotRow D)) (ops : List Op)
      → h.ready ≡ false
      → All (IsUpdate h.product) ops
      → (run key parse (h, rows) ops).1 ≡ rows
  run-silent h rows ops r n = run-IsUnready h.product h rows ops (r, refl) n
