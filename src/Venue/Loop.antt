-- ===== src/Venue/Loop.antt =====
-- internal/venue/run.go: the refreshes of Run, one at once and one for each tick, and what is logged.
use funding_carry.Prelude.{List, [], ◌∷◌, ◌++◌, Bool, true, false}
use funding_carry.Clock.{Duration}
use funding_carry.Venue.{Rows, State, Answers, Failure, refresh}

pub data Log : Type 0 where
  warned recovered : Log

-- note, for whether the refresh failed: the next state of the flag, and the line.
unfoldable pub note : List Failure → Bool → Bool × List Log
note [] false = (false, [])
note [] true = (false, Log.recovered ∷ [])
note (f ∷ fs) false = (true, Log.warned ∷ [])
note (f ∷ fs) true = (true, [])

-- A warning where nothing has failed, a recovery where something has, and so on in turn.
abbrev pub AreInTurn : Bool → List Log → Type 0
AreInTurn failing [] = Unit
AreInTurn false (Log.warned ∷ logs) = AreInTurn true logs
AreInTurn true (Log.recovered ∷ logs) = AreInTurn false logs
AreInTurn true (Log.warned ∷ logs) = ⊥
AreInTurn false (Log.recovered ∷ logs) = ⊥

module _ {V A B P : Type 0} (rows : Rows V A B P) (limit : Duration) where
  unfoldable pub run_noted :
      State V A B P → Bool → List (Answers V A B P) → State V A B P × List Log
  unfolding note
  run_noted s failing [] = (s, [])
  run_noted s failing (a ∷ later) =
      let refreshed = refresh rows limit s a in
      let noted = note refreshed.1 failing in
      let rest = run_noted refreshed.0 noted.0 later in (rest.0, noted.1 ++ rest.1)

  note-AreInTurn :
      (failures : List Failure) (failing : Bool) (logs : List Log)
      → AreInTurn (note failures failing).0 logs
      → AreInTurn failing ((note failures failing).1 ++ logs)
  unfolding note
  note-AreInTurn [] false logs h = h
  note-AreInTurn [] true logs h = h
  note-AreInTurn (f ∷ fs) false logs h = h
  note-AreInTurn (f ∷ fs) true logs h = h

  -- However the refreshes go, an outage is one warning and one recovery.
  pub run_noted-AreInTurn :
      (s : State V A B P) (failing : Bool) (answers : List (Answers V A B P))
      → AreInTurn failing (run_noted s failing answers).1
  unfolding run_noted
  run_noted-AreInTurn s failing [] = tt
  run_noted-AreInTurn s failing (a ∷ later) = note-AreInTurn (refresh rows limit s a).1 failing _ (
      run_noted-AreInTurn (refresh rows limit s a).0 (note (refresh rows limit s a).1 failing).0
        later)
