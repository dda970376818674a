-- ===== src/Fix/Engine/Finality.antt =====
-- internal/fix/engine.go: an order that has ended stays so, and its id is not taken again.
pub mod Cancel
use funding_carry.Prelude.{◌≡◌, refl, subst, List, [], ◌∷◌, none, some, arith, Option, ◌≢◌, String}
use funding_carry.Prelude.Text.{eq_iff}
use funding_carry.Dict.{lookup, insert}
use funding_carry.Dict.Laws.{AllEntries, AllEntries-insert, AllEntries-delete, lookup-insert}
use funding_carry.Fix.Terms.{OrdStatus}
use funding_carry.Fix.Engine.State.{Order, Engine, Fault}
use funding_carry.Fix.Engine.Moves.{IsKept}

-- Nothing, or an id with the status that its order has ended in.
abbrev pub Past : Type 0
Past = Option (String × OrdStatus)

abbrev pub Avoids : Past → String → Type 0
Avoids none k = Unit
Avoids (some p) k = k ≢ p.0

abbrev pub Holds : Past → List (String × OrdStatus) → Type 0
Holds none m = Unit
Holds (some p) m = lookup p.0 m ≡ some p.1

Holds-insert :
    (past : Past) (k : String) (s : OrdStatus) (m : List (String × OrdStatus))
    → Avoids past k
    → Holds past m
    → Holds past (insert k s m)
Holds-insert none k s m a h = tt
Holds-insert (some (j, t)) k s m a h = ground (arith, lookup-insert k j s m, eq_iff k j)

module _ {D : Type 0} (past : Past) where
  abbrev pub IsOther : String → Order D → Type 0
  IsOther k o = (k ≡ o.cl_ord_id) × Avoids past k

  -- The book files its orders by their ids, the past id is not among them, and its status stands.
  abbrev pub IsPast : List (String × Order D) → List (String × OrdStatus) → Type 0
  IsPast live final = AllEntries IsOther live × Holds past final

  IsOther-held :
      (l : List (String × Order D))
      → AllEntries IsOther l
      → AllEntries (λ k o. Avoids past o.cl_ord_id) l
  IsOther-held [] h = tt
  IsOther-held ((k, o) ∷ l) h = (subst (Avoids past) h.0.0 h.0.1, IsOther-held l h.1)

unheld :
    (past : Past) (k : String) (f : List (String × OrdStatus))
    → lookup k f ≡ none
    → Holds past f
    → Avoids past k
unheld none k f e h = tt
unheld (some (j, t)) k f e h = λ q. cc

pub IsPast-IsKept : {D : Type 0} (past : Past) → IsKept {D = D} (Avoids past) (IsPast past)
IsPast-IsKept past = record {
  files = λ o l f a h. (AllEntries-insert (IsOther past) o.cl_ord_id o l (refl, a) h.0, h.1);
  ends = λ o s l f a h.
      (AllEntries-delete (IsOther past) o.cl_ord_id l h.0, Holds-insert past o.cl_ord_id s f a h.1);
  held = λ l f h. IsOther-held past l h.0;
  fresh = λ k l f e q h. unheld past k f q h.1;
}
