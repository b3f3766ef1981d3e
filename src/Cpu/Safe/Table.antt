-- ===== src/Cpu/Safe/Table.antt =====
-- What it is for all functions of a table of instructions to keep the machine valid.
use spu_kit.Machine.Ensures.{Any, Ensures}
use spu_kit.Cpu.Table.{entry, Entry}
use Prim.Native.Nat.{zero, suc}
use spu_kit.Base.{ℕ, none, some, List, [], ◌∷◌, ◌++◌}

abbrev pub Runs : Entry → Type 0
Runs none = Unit
Runs (some cb) = Ensures Any cb

infixr 10 ◌also◌
pub data AllRun : List Entry → Type 0 where
  end : AllRun []
  ◌also◌ : {f : Entry} {fs : List Entry} → Runs f → AllRun fs → AllRun (f ∷ fs)

pub append-AllRun : (fs gs : List Entry) → AllRun fs → AllRun gs → AllRun (fs ++ gs)
append-AllRun [] gs end k = k
append-AllRun (f ∷ fs) gs (h also hs) k = h also append-AllRun fs gs hs k

pub entry-Runs : (fs : List Entry) (i : ℕ) → AllRun fs → Runs (entry fs i)
entry-Runs [] i h = tt
entry-Runs (f ∷ fs) zero (h also hs) = h
entry-Runs (f ∷ fs) (suc i) (h also hs) = entry-Runs fs i hs
