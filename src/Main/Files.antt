-- ===== src/Main/Files.antt =====
-- main over any arguments.
use spu_kit.Base.{
  if◌then◌else◌, ℕ, ◌+◌, ◌^◌, ◌<◌, ◌≡◌, ◌⊎◌, inl, inr, Bool, true, false, Bool-cases, List, [], ◌∷◌,
}
use spu_kit.Base.Int.{ℤ, is_negative}
use spu_kit.Base.Lists.{length}
use spu_kit.Io.{Result, Os, done, spins, asserted, overrun, after}
use spu_kit.Io.Laws.{Documented}
use spu_kit.Bufwr.{closed}
use spu_kit.Fd.{Status, success, failure, fd_write}
use spu_kit.Fd.Write.{fd_write-Appends, Appends}
use spu_kit.Load.{Reader, dump_ram, dump_result}
use spu_kit.Play.Action.{Device}
use spu_kit.Main.{returned, stopped, Stop, Exit, exit_success, exit_failure, stops, handle_file}

-- A call returns.
abbrev pub Returns : {W A : Type 0} → Result W A → Type 0
Returns (done a w) = Unit {0}
Returns _ = ⊥

module _ {W : Type 0} (os : Os W) (file : ℤ → W → List ℕ) (patience : W → ℕ) where
  pub dump_ram-Returns :
      Documented os file patience
      → (fuel : ℕ) (ram name : List ℕ) (w : W) → length ram < 2 ^ 64
      → ((w : W) → patience w + length ram < fuel)
      → Returns (dump_ram os fuel ram name w)
  unfolding dump_ram dump_result
  dump_ram-Returns doc fuel ram name w small calm = opened (os.open_file name w)
    where
      written :
          (fd : ℤ) (w' : W) (r : Result W Status)
          → Appends os file patience fd ram w' r
          → Returns (
              after r (λ s w'.
                let (q, w'') = os.close fd w' in
                done
                  (if closed os q then (elim s [ success ↦ true | failure e ↦ false ]) else false)
                  w''))
      written fd w' (done s w'') v = tt
      written fd w' spins v = absurd v
      written fd w' asserted v = absurd v
      written fd w' overrun v = absurd v

      opened : (p : ℤ × W) → Returns (dump_result os fuel ram p)
      opened (fd, w') = elim (Bool-cases (is_negative fd)) [
        | inl e ↦ rw (e, dump_result) tt
        | inr e ↦
            rw (e, dump_result)
              (written fd w' (fd_write os fuel fd ram w')
                (fd_write-Appends os file patience fd doc fuel ram w' small (calm w')))
      ]

  module _ (reader : Reader W) (fuel rounds : ℕ) where
    -- Every file returns, in turn, and the loop's `ret` goes from the first value to the last.
    abbrev pub Answers : Bool → List (List ℕ) → Device → W → Bool → Type 0
    Answers ret [] d w ret' = ret ≡ ret'
    Answers ret (name ∷ names) d w ret' =
        (loads : Bool) × (d' : Device) × (w' : W) × (handle_file reader os fuel rounds name d w
          ≡ done (returned loads d') w')
        × Answers (if loads then ret else false) names d' w' ret'

    -- The program stops with some file, and those before it return.
    abbrev pub Stops : Stop → List (List ℕ) → Device → W → Type 0
    Stops e [] d w = ⊥
    Stops e (name ∷ names) d w =
        ((w' : W) × (handle_file reader os fuel rounds name d w ≡ done (stopped e) w'))
        ⊎ ((loads : Bool) × (d' : Device) × (w' : W) × (handle_file reader os fuel rounds name d w
              ≡ done (returned loads d') w')
            × Stops e names d' w')

    -- A call of main has ended, by the answers to the files.
    abbrev pub EndsFrom : Bool → List (List ℕ) → Device → W → Result W Exit → Type 0
    EndsFrom ret names d w (done exit_success w') = Answers ret names d w true
    EndsFrom ret names d w (done exit_failure w') = Answers ret names d w false
    EndsFrom ret names d w (done (stops e) w') = Stops e names d w
    EndsFrom ret names d w _ = ⊥
