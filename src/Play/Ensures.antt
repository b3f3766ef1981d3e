-- ===== src/Play/Ensures.antt =====
-- What an action on the whole program ensures where an invariant of its state holds: no `xassert`
-- fails outside of next_sample, no loop is out of fuel, and where it returns, the invariant holds.
use spu_kit.Base.{◌≡◌, refl, Bool, true, false, if◌then◌else◌}
use spu_kit.Machine.Action.{M, Outcome, done as finished, aborted as stopped, failed as refused}
use spu_kit.Machine.Ensures.{Good, Ensures}
use spu_kit.Machine.Valid.{IsValid}
use spu_kit.Render.{Render}
use spu_kit.Play.Action.{
  Device, Played, played, exits, aborted, failed, crashed, spinning, P, pure, on, on_outcome,
  continue, ◌>>=◌,
}

-- `Inv` is what holds of the sound generation and the system, and `Exited` what holds after an exit,
-- and `Crashed` what held before a crash.
module _ {W : Type 0} (Inv : Render → W → Type 0) (Exited : W → Type 0)
    (Crashed : Device → Type 0) where
  abbrev pub Fine : {A : Type 0} → (A → Type 0) → Played W A → Type 0
  Fine Q (played a d w) = Q a × IsValid d.machine × Inv d.render w
  Fine Q (exits w) = Exited w
  Fine Q aborted = Unit
  Fine Q (crashed d) = Crashed d
  Fine Q failed = ⊥
  Fine Q spinning = ⊥

  pub record Secures {A : Type 0} (Q : A → Type 0) (m : P W A) : Type 0 where
    pub at : (d : Device) (w : W) → IsValid d.machine → Inv d.render w → Fine Q (m d w)

  outcome-Fine :
      {A : Type 0} (Q : A → Type 0) (r : Outcome A) (d : Device) (w : W)
      → Good Q r
      → Inv d.render w
      → Fine Q (on_outcome r d w)
  outcome-Fine Q (finished a s) d w (q, v) i = (q, v, i)
  outcome-Fine Q stopped d w g i = tt
  outcome-Fine Q refused d w g i = absurd g

  module _ {A : Type 0} {Q : A → Type 0} where
    pub Secures-pure : (a : A) → Q a → Secures Q (pure a)
    unfolding pure
    Secures-pure a q = record { at = λ d w v i. (q, v, i) }

    pub Secures-on : (m : M A) → Ensures Q m → Secures Q (on m)
    unfolding on
    Secures-on m h = record {
      at = λ d w v i. outcome-Fine Q (m d.machine) d w (h.at d.machine v) i;
    }

    pub Secures-if :
        (b : Bool) (m n : P W A)
        → (b ≡ true → Secures Q m)
        → (b ≡ false → Secures Q n)
        → Secures Q (if b then m else n)
    Secures-if true m n hm hn = hm refl
    Secures-if false m n hm hn = hn refl

  module _ {A B : Type 0} {Q : A → Type 0} {R : B → Type 0} where
    then-Fine :
        (r : Played W A) (f : A → P W B)
        → Fine Q r
        → ((a : A) → Q a → Secures R (f a))
        → Fine R (continue r f)
    then-Fine (played a d w) f (q, v, i) h = (h a q).at d w v i
    then-Fine (exits w) f g h = g
    then-Fine aborted f g h = tt
    then-Fine (crashed d) f g h = g
    then-Fine failed f g h = absurd g
    then-Fine spinning f g h = absurd g

    pub Secures-bind :
        (m : P W A) (f : A → P W B)
        → Secures Q m
        → ((a : A) → Q a → Secures R (f a))
        → Secures R (m >>= f)
    unfolding ◌>>=◌
    Secures-bind m f hm hf = record { at = λ d w v i. then-Fine (m d w) f (hm.at d w v i) hf }
