-- ===== src/Play/Action.antt =====
-- Actions on the whole program: the machine, the sound generation with its WAV file, and the operating
-- system.
use spu_kit.Machine.{Machine}
use spu_kit.Machine.Action.{M, Outcome, done as finished, aborted as stopped, failed as refused}
use spu_kit.Render.{Render}

-- The static variables of the source files. The registers of the DSP and `aram` are those of
-- `machine`; what `render.sound` holds of them is replaced before it is used.
pub record Device : Type 0 where
  pub machine : Machine
  pub render : Render

-- How an action ends: it returns; the program calls `exit(0)` or `abort()`, fails an `xassert` or a
-- copy leaves its array; it fails within next_sample or goes on with a NULL or freed pointer, at a
-- call of `_dsp_run32` with these variables; or a loop over the system's calls is out of fuel.
pub data Played (W A : Type 0) : Type 0 where
  played : A → Device → W → Played W A
  exits : W → Played W A
  aborted failed spinning : Played W A
  crashed : Device → Played W A

abbrev pub P : Type 0 → Type 0 → Type 0
P W A = Device → W → Played W A

module _ {W : Type 0} where
  abbrev pub continue : {A B : Type 0} → Played W A → (A → P W B) → Played W B
  continue (played a d w) f = f a d w
  continue (exits w) f = exits w
  continue aborted f = aborted
  continue failed f = failed
  continue (crashed d) f = crashed d
  continue spinning f = spinning

  unfoldable pub pure : {A : Type 0} → A → P W A
  pure a d w = played a d w

  abbrev pub on_outcome : {A : Type 0} → Outcome A → P W A
  on_outcome (finished a s) d w = played a (record d { machine = s }) w
  on_outcome stopped d w = aborted
  on_outcome refused d w = failed

  -- An action on the machine alone.
  unfoldable pub on : {A : Type 0} → M A → P W A
  on m d w = on_outcome (m d.machine) d w

  infixl 5 ◌>>=◌ ◌>>◌
  unfoldable pub ◌>>=◌ : {A B : Type 0} → P W A → (A → P W B) → P W B
  unfolding pure on
  ◌>>=◌ m f d w = continue (m d w) f

  abbrev pub ◌>>◌ : {A B : Type 0} → P W A → P W B → P W B
  m >> n = m >>= λ _. n
