-- ===== src/Cpu/Alu/Rotate.antt =====
-- The rotations of spc700.c through the carry, one after the other.
use spu_kit.Cpu.Flags.{set_zn}
use spu_kit.Base.Bits.{test_single, or_field}
use spu_kit.Cpu.Alu.{alu_ror, alu_rol}
use spu_kit.Base.{
  of_bool-lt, false, true, Bool, ◌/◌, ◌==◌, ◌+◌, ◌∙◌, ◌>>>◌, ◌*◌, ◌%◌, ◌≡◌, ◌<<<◌, ◌<◌, ℕ, test,
  refl, of_bool, leb, bit_or, arith, IsByte,
}
use spu_kit.Machine.{Cpu}

bit_eight : (n : ℕ) → n < 512 → test n 0x100 ≡ leb 256 n
bit_eight n h = ground (arith, test_single 8 n)

bit_zero : (n : ℕ) → test n 0x1 ≡ (n % 2 == 1)
bit_zero n = test_single 0 n

rol_join : (a k : ℕ) → k < 2 → bit_or (a <<< 1) k ≡ a * 2 + k
rol_join a k h = or_field 1 a k h

ror_join : (a k : ℕ) → IsByte a → bit_or (k <<< 7) (a >>> 1) ≡ k * 128 + a / 2
ror_join a k h = or_field 7 k (a / 2) (omega arith)

-- `alu_rol` as arithmetic.
rol_value :
    (a : ℕ) (c : Cpu)
    → IsByte a
    → ((alu_rol a c).0 ≡ (a * 2 + of_bool c.carry) % 256) × ((alu_rol a c).1.carry ≡ leb 128 a)
unfolding alu_rol set_zn
rol_value a c h =
    let small = of_bool-lt c.carry in
    rw (rol_join a (of_bool c.carry) small)
      (refl, bit_eight (a * 2 + of_bool c.carry) (omega arith) ∙ ground arith)

-- `alu_ror` as arithmetic.
ror_value :
    (a : ℕ) (c : Cpu)
    → IsByte a
    → ((alu_ror a c).0 ≡ of_bool c.carry * 128 + a / 2) × ((alu_ror a c).1.carry ≡ (a % 2 == 1))
unfolding alu_ror set_zn
ror_value a c h = (ror_join a (of_bool c.carry) h, bit_zero a)

rol_back :
    (a : ℕ) (k : Bool)
    → IsByte a
    → (of_bool (leb 128 a) * 128 + (a * 2 + of_bool k) % 256 / 2 ≡ a)
      × (((a * 2 + of_bool k) % 256 % 2 == 1) ≡ k)
rol_back a true h = ground arith
rol_back a false h = ground arith

ror_back :
    (a : ℕ) (k : Bool)
    → IsByte a
    → (((of_bool k * 128 + a / 2) * 2 + of_bool (a % 2 == 1)) % 256 ≡ a)
      × (leb 128 (of_bool k * 128 + a / 2) ≡ k)
ror_back a true h = ground arith
ror_back a false h = ground arith

-- `ror` after `rol` of a byte gives back the byte and the carry.
pub rol-ror :
    (a : ℕ) (c : Cpu)
    → IsByte a
    → ((alu_ror (alu_rol a c).0 (alu_rol a c).1).0 ≡ a)
      × ((alu_ror (alu_rol a c).0 (alu_rol a c).1).1.carry ≡ c.carry)
rol-ror a c h =
    let (value, out) = rol_value a c h in
    let back = ror_value (alu_rol a c).0 (alu_rol a c).1 (omega arith) in
    let undo = rol_back a c.carry h in (back.0 ∙ rw (value, out) undo.0, back.1 ∙ rw value undo.1)

-- `rol` after `ror` of a byte gives back the byte and the carry.
pub ror-rol :
    (a : ℕ) (c : Cpu)
    → IsByte a
    → ((alu_rol (alu_ror a c).0 (alu_ror a c).1).0 ≡ a)
      × ((alu_rol (alu_ror a c).0 (alu_ror a c).1).1.carry ≡ c.carry)
ror-rol a c h =
    let (value, out) = ror_value a c h in
    let small = of_bool-lt c.carry in
    let back = rol_value (alu_ror a c).0 (alu_ror a c).1 (omega arith) in
    let undo = ror_back a c.carry h in (back.0 ∙ rw (value, out) undo.0, back.1 ∙ rw value undo.1)
