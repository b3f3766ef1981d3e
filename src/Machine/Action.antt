-- ===== src/Machine/Action.antt =====
-- Actions on the machine, which return, call `abort()` or fail an `xassert`.
use spu_kit.Base.{Bool, true, false}
use spu_kit.Machine.{Machine, Apu, Cpu, Dsp}

pub data Outcome (A : Type 0) : Type 0 where
  done : A → Machine → Outcome A
  aborted : Outcome A
  failed : Outcome A

abbrev pub M : Type 0 → Type 0
M A = Machine → Outcome A

abbrev pub continue : {A B : Type 0} → Outcome A → (A → M B) → Outcome B
continue (done a s) f = f a s
continue aborted f = aborted
continue failed f = failed

module _ {A : Type 0} where
  unfoldable pub pure : A → M A
  pure a s = done a s

  unfoldable pub abort : M A
  abort s = aborted

  unfoldable pub gets : (Machine → A) → M A
  gets f s = done (f s) s

unfoldable pub modify : (Machine → Machine) → M (Unit {0})
modify f s = done tt (f s)

-- A failed `xassert` ends the program.
unfoldable pub xassert : Bool → M (Unit {0})
xassert true s = done tt s
xassert false s = failed

-- A function of the registers alone, as an action.
unfoldable pub on_cpu : {A : Type 0} → (Cpu → A × Cpu) → M A
on_cpu f s = let (v, c) = f s.cpu in done v (record s { cpu = c })

-- The registers read, and an assignment to them.
unfoldable pub registers : M Cpu
registers s = done s.cpu s

unfoldable pub assign : (Cpu → Cpu) → M (Unit {0})
assign f s = done tt (record s { cpu = f s.cpu })

unfoldable pub modify_apu : (Apu → Apu) → M (Unit {0})
modify_apu f s = done tt (record s { apu = f s.apu })

unfoldable pub modify_dsp : (Dsp → Dsp) → M (Unit {0})
modify_dsp f s = done tt (record s { dsp = f s.dsp })

module _ {A B : Type 0} where
  infixl 5 ◌>>=◌ ◌>>◌
  -- To unfold this is to unfold the actions above.
  unfoldable pub ◌>>=◌ : M A → (A → M B) → M B
  unfolding pure abort gets modify xassert on_cpu registers assign modify_apu modify_dsp
  ◌>>=◌ m f s = continue (m s) f

  abbrev pub ◌>>◌ : M A → M B → M B
  m >> n = m >>= λ _. n
