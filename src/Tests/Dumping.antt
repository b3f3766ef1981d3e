-- ===== src/Tests/Dumping.antt =====
-- A dump of three bytes in lines of two, and the theorem about dumps on it.
use spu_kit.Base.{ℕ, leb, ◌≡◌, refl, arith, Bool, some, [], ◌∷◌}
use spu_kit.Hexdump.{hex_dump_addr, address, letter, dot, space, newline, hex}
use spu_kit.Hexdump.Dump.{hex_dump-Shows, Shows}

abbrev is_letter : ℕ → Bool
is_letter b = leb 0x20 b

hex_dump_runs :
    hex_dump_addr is_letter 4 (0x41 ∷ 2 ∷ 3 ∷ []) 2 0x100
    ≡ some (
        address 0x100
        ∷ letter 0x41
        ∷ dot
        ∷ hex 0x41
        ∷ hex 2
        ∷ newline
        ∷ address 0x102
        ∷ dot
        ∷ space
        ∷ hex 3
        ∷ newline
        ∷ [])
unfolding hex_dump_addr
hex_dump_runs = refl

hex_dump-Shows_example :
    Shows is_letter 2 0x100
      (0x41 ∷ 2 ∷ 3 ∷ [])
      (hex_dump_addr is_letter 4 (0x41 ∷ 2 ∷ 3 ∷ []) 2 0x100)
hex_dump-Shows_example =
    hex_dump-Shows is_letter 4 (0x41 ∷ 2 ∷ 3 ∷ []) 2 0x100 (omega arith) (omega arith) (omega arith)
