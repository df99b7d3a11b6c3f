-- ===== src/Environment/Keeps.antt =====
-- What it means that the clock, a shared object or an action keeps a property of the world, and that
-- an action answers by one of the world and the response that it holds.
use resili.Prelude.{ℤ, Bool, true, false, if◌then◌else◌}
use resili.Errors.{Outcome}
use resili.Environment.{Clock, Cell}

pub record ClockKeeps {W : Type 0} (clock : Clock W) (P : W → Type 0) : Type 0 where
  pub now : (w : W) → P w → P (clock.now w).1
  pub sleep : (d : ℤ) (w : W) → P w → P (clock.sleep d w)

abbrev pub CellKeeps : {W S : Type 0} → Cell W S → (W → Type 0) → Type 0
CellKeeps {W} {S} cell P = (s : S) (w : W) → P w → P (cell.put s w)

abbrev pub Keeps : {W A : Type 0} → (W → A × W) → (W → Type 0) → Type 0
Keeps {W} f P = (w : W) → P w → P (f w).1

-- From a world with `P` to one with `Q` of the response of the outcome.
abbrev pub LeadsTo : {W R : Type 0} → (W → Outcome R × W) → (W → Type 0) → (R → W → Type 0) → Type 0
LeadsTo {W} f P Q = (w : W) → P w → Q (f w).0.0 (f w).1

-- From a world that holds no response, to one that holds the response of the outcome.
abbrev pub Answers : {W R : Type 0} → (W → Outcome R × W) → R → (R → W → Type 0) → Type 0
Answers f nil Q = LeadsTo f (Q nil) Q

-- Both branches keep it.
pub if-both :
    {W : Type 0} (P : W → Type 0) (b : Bool) (v w : W) → P v → P w → P (if b then v else w)
if-both P true v w h k = h
if-both P false v w h k = k
