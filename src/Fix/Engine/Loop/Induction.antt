-- ===== src/Fix/Engine/Loop/Induction.antt =====
-- internal/fix/engine.go: what every handler keeps, the run loop keeps.
use funding_carry.Prelude.{List, [], ◌∷◌, Option, none, some, Bool-cases, inl, inr, All}
use funding_carry.Prelude.Sort.{All-sort}
use funding_carry.Clock.{Time, before}
use funding_carry.Decimal.{Decimal}
use funding_carry.Dict.{values}
use funding_carry.Fix.Engine.State.{Submission, CancelRequest, Order, Engine, Env, Fault}
use funding_carry.Fix.Engine.Handlers.{accept, evaluate, cancel_requested}
use funding_carry.Fix.Engine.Loop.{
  Event, submitted, cancel_asked, fired, Reading, read_book, live_in_order, evaluate_if_due,
  evaluate_due, tick, step, run_from, by_cl_ord_id,
}

-- Every submission among the events.
abbrev pub AllSubmitted {ℓ} : {D : Type 0} → (Submission D → Type ℓ) → List (Event D) → Type ℓ
AllSubmitted A [] = Unit
AllSubmitted A (submitted s ∷ evs) = A s × AllSubmitted A evs
AllSubmitted A (cancel_asked c ∷ evs) = AllSubmitted A evs
AllSubmitted A (fired now at r ∷ evs) = AllSubmitted A evs

module _ {D : Type 0} ⦃dec : Decimal D⦄ where
  -- `R` holds of what each handler gives, if the submissions are in `A`; `Q` holds of a live order.
  pub record IsInvariant {ℓ κ μ} (env : Env D) (A : Submission D → Type ℓ) (Q : Order D → Type κ)
      (R : Engine D × Option Fault → Type μ) : Type (ℓ ⊔ κ ⊔ μ) where
    pub reads :
        (e : Engine D) (at : Time) (r : Reading D) → R (e, none) → R (read_book e at r, none)
    pub lives : (e : Engine D) → R (e, none) → All Q (values e.live)
    pub accepts : (e : Engine D) (s : Submission D) → A s → R (e, none) → R (accept env e s)
    pub cancels : (e : Engine D) (c : CancelRequest) → R (e, none) → R (cancel_requested env e c)
    pub evaluates :
        (e : Engine D) (o : Order D) (now : Time) → Q o → R (e, none) → R (evaluate env e o now)

  module _ {ℓ κ μ} {env : Env D} {A : Submission D → Type ℓ} {Q : Order D → Type κ}
      {R : Engine D × Option Fault → Type μ} (inv : IsInvariant env A Q R) where
    evaluate_if_due_keeps :
        (now : Time) (e : Engine D) (o : Order D)
        → Q o
        → R (e, none)
        → R (evaluate_if_due env now e o)
    unfolding evaluate_if_due
    evaluate_if_due_keeps now e o q h = elim (Bool-cases (before now o.ready_at)) [
      | inl early ↦ rw early h
      | inr due ↦ rw due (inv.evaluates e o now q h)
    ]

    evaluate_due_keeps :
        (now : Time) (os : List (Order D)) (e : Engine D) (f : Option Fault)
        → All Q os
        → R (e, f)
        → R (evaluate_due env now os (e, f))
    unfolding evaluate_due
    evaluate_due_keeps now [] e f q h = h
    evaluate_due_keeps now (o ∷ os) e (some f) q h = h
    evaluate_due_keeps now (o ∷ os) e none q h =
        let next = evaluate_if_due env now e o in
        evaluate_due_keeps now os next.0 next.1 q.1 (evaluate_if_due_keeps now e o q.0 h)

    evaluate_all_keeps :
        (now : Time) (e : Engine D)
        → R (e, none)
        → R (evaluate_due env now (live_in_order e) (e, none))
    unfolding live_in_order
    evaluate_all_keeps now e h =
        evaluate_due_keeps now _ e none (All-sort by_cl_ord_id Q (values e.live) (inv.lives e h)) h

    tick_keeps :
        (e : Engine D) (now at : Time) (r : Reading D) → R (e, none) → R (tick env e now at r)
    unfolding tick
    tick_keeps e now at r h = elim (Bool-cases (before now e.next_book_read)) [
      | inl early ↦ rw early (evaluate_all_keeps now e h)
      | inr due ↦ rw due (evaluate_all_keeps now (read_book e at r) (inv.reads e at r h))
    ]

    pub run_from_keeps :
        (evs : List (Event D)) (e : Engine D) (f : Option Fault)
        → AllSubmitted A evs
        → R (e, f)
        → R (run_from env (e, f) evs)
    unfolding run_from step
    run_from_keeps evs e (some f) a h = h
    run_from_keeps [] e none a h = h
    run_from_keeps (submitted s ∷ evs) e none a h =
        let next = accept env e s in run_from_keeps evs next.0 next.1 a.1 (inv.accepts e s a.0 h)
    run_from_keeps (cancel_asked c ∷ evs) e none a h =
        let next = cancel_requested env e c in
        run_from_keeps evs next.0 next.1 a (inv.cancels e c h)
    run_from_keeps (fired now at r ∷ evs) e none a h =
        let next = tick env e now at r in
        run_from_keeps evs next.0 next.1 a (tick_keeps e now at r h)
