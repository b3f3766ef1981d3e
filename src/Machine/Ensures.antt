-- ===== src/Machine/Ensures.antt =====
-- What an action ensures from a valid machine: no failed `xassert`, and where it returns, a valid
-- machine and a property of the value. One rule for each way to build an action.
use spu_kit.Base.{◌≡◌, refl, Bool, true, false, if◌then◌else◌}
use spu_kit.Machine.{Machine, Cpu, Apu, Dsp}
use spu_kit.Machine.Action.{
  Outcome, done, aborted, failed, continue, M, pure, abort, gets, modify, xassert, on_cpu,
  registers, assign, modify_apu, modify_dsp, ◌>>=◌,
}
use spu_kit.Machine.Valid.{
  IsValid, IsValidCpu, IsValidApu, IsValidDsp, with_cpu, with_apu, with_dsp,
}

abbrev pub Good : {A : Type 0} → (A → Type 0) → Outcome A → Type 0
Good Q (done a s) = Q a × IsValid s
Good Q aborted = Unit
Good Q failed = ⊥

pub record Ensures {A : Type 0} (Q : A → Type 0) (m : M A) : Type 0 where
  pub at : (s : Machine) → IsValid s → Good Q (m s)

abbrev pub Any : {A : Type 0} → A → Type 0
Any a = Unit

module _ {A : Type 0} {Q : A → Type 0} where
  pub Ensures-pure : (a : A) → Q a → Ensures Q (pure a)
  unfolding pure
  Ensures-pure a q = record { at = λ s v. (q, v) }

  pub Ensures-abort : Ensures Q abort
  unfolding abort
  Ensures-abort = record { at = λ s v. tt }

  pub Ensures-gets : (f : Machine → A) → ((s : Machine) → IsValid s → Q (f s)) → Ensures Q (gets f)
  unfolding gets
  Ensures-gets f q = record { at = λ s v. (q s v, v) }

  -- A branch may use the value of its test.
  pub Ensures-if :
      (b : Bool) (m n : M A)
      → (b ≡ true → Ensures Q m)
      → (b ≡ false → Ensures Q n)
      → Ensures Q (if b then m else n)
  Ensures-if true m n em en = em refl
  Ensures-if false m n em en = en refl

  pub Ensures-on_cpu :
      (f : Cpu → A × Cpu)
      → ((c : Cpu) → IsValidCpu c → Q (f c).0 × IsValidCpu (f c).1)
      → Ensures Q (on_cpu f)
  unfolding on_cpu
  Ensures-on_cpu f h = record {
    at = λ s v. ((h s.cpu v.cpu_valid).0, with_cpu _ v (h s.cpu v.cpu_valid).1);
  }

pub Ensures-registers : Ensures IsValidCpu registers
unfolding registers
Ensures-registers = record { at = λ s v. (v.cpu_valid, v) }

pub Ensures-modify :
    (f : Machine → Machine) → ((s : Machine) → IsValid s → IsValid (f s)) → Ensures Any (modify f)
unfolding modify
Ensures-modify f h = record { at = λ s v. (tt, h s v) }

pub Ensures-assign :
    (f : Cpu → Cpu) → ((c : Cpu) → IsValidCpu c → IsValidCpu (f c)) → Ensures Any (assign f)
unfolding assign
Ensures-assign f h = record { at = λ s v. (tt, with_cpu _ v (h s.cpu v.cpu_valid)) }

pub Ensures-modify_apu :
    (f : Apu → Apu) → ((p : Apu) → IsValidApu p → IsValidApu (f p)) → Ensures Any (modify_apu f)
unfolding modify_apu
Ensures-modify_apu f h = record { at = λ s v. (tt, with_apu _ v (h s.apu v.apu_valid)) }

pub Ensures-modify_dsp :
    (f : Dsp → Dsp) → ((d : Dsp) → IsValidDsp d → IsValidDsp (f d)) → Ensures Any (modify_dsp f)
unfolding modify_dsp
Ensures-modify_dsp f h = record { at = λ s v. (tt, with_dsp _ v (h s.dsp v.dsp_valid)) }

-- An assertion whose condition is proved.
pub Ensures-xassert : (b : Bool) → b ≡ true → Ensures Any (xassert b)
unfolding xassert
Ensures-xassert true h = record { at = λ s v. (tt, v) }
Ensures-xassert false h = record { at = λ s v. cc }

module _ {A B : Type 0} {Q : A → Type 0} {R : B → Type 0} where
  then-Good :
      (r : Outcome A) (f : A → M B)
      → Good Q r
      → ((a : A) → Q a → Ensures R (f a))
      → Good R (continue r f)
  then-Good (done a s) f g h = (h a g.0).at s g.1
  then-Good aborted f g h = tt
  then-Good failed f g h = g

  pub Ensures-bind :
      (m : M A) (f : A → M B)
      → Ensures Q m
      → ((a : A) → Q a → Ensures R (f a))
      → Ensures R (m >>= f)
  unfolding ◌>>=◌
  Ensures-bind m f em ef = record { at = λ s v. then-Good (m s) f (em.at s v) ef }

module _ {B : Type 0} {R : B → Type 0} where
  pub Ensures-then :
      (m : M (Unit {0})) (n : M B) → Ensures Any m → Ensures R n → Ensures R (m >>= λ _. n)
  Ensures-then m n em en = Ensures-bind m (λ _. n) em (λ _ _. en)

pub ruleset ensures_rules =
    (Ensures-pure, Ensures-if, Ensures-registers, Ensures-then, Ensures-bind)
