-- ===== src/Tests/Alu.antt =====
-- The ALU of spc700.c on numbers: `0x7f + 1` overflows, `3 - 5` borrows.
use spu_kit.Cpu.Divide.{divide-quotient}
use spu_kit.Cpu.Insn.Word.{divide}
use spu_kit.Base.{◌==◌, ◌^◌, ◌<◌, ◌≡◌, ◌+◌, ◌*◌, true, refl, of_bool, not, false, arith}
use spu_kit.Cpu.Alu.Wide.{cmp-sbc, addw-sum}
use spu_kit.Cpu.Alu.Sums.{sbc-difference, adc-sum}
use spu_kit.Cpu.Alu.{sbc, alu_sbc, alu_cmp, alu_addw, adc}
use spu_kit.Tests.{start}

adc_runs : (adc 0x7f 0x01 (record start { carry = false })).0 ≡ 0x80
unfolding adc
adc_runs = refl

adc-sum_example :
    ((adc 0x7f 0x01 start).0 + 256 * of_bool (adc 0x7f 0x01 start).1.carry ≡ 0x7f + 0x01 + 1)
    × ((adc 0x7f 0x01 start).1.half_carry ≡ true)
    × ((adc 0x7f 0x01 start).1.overflow ≡ true)
adc-sum_example = adc-sum 0x7f 0x01 start (omega arith) (omega arith)

sbc-difference_example :
    ((sbc 3 5 start).0 + 5 + 0 ≡ 3 + 256 * of_bool (not (sbc 3 5 start).1.carry))
    × ((sbc 3 5 start).1.overflow ≡ false)
sbc-difference_example = sbc-difference 3 5 start (omega arith) (omega arith)

cmp-sbc_example :
    let d = (alu_sbc 3 5 (record start { carry = true })).1 in
    ((alu_cmp 3 5 start).carry ≡ d.carry)
    × ((alu_cmp 3 5 start).zero ≡ d.zero)
    × ((alu_cmp 3 5 start).negative ≡ d.negative)
    × ((alu_cmp 3 5 start).carry ≡ false)
    × ((alu_cmp 3 5 start).zero ≡ false)
cmp-sbc_example = cmp-sbc 3 5 start (omega arith) (omega arith)

addw-sum_example :
    ((alu_addw 0xffff 2 start).0 + 2 ^ 16 * of_bool (alu_addw 0xffff 2 start).1.carry ≡ 0x10001)
    × ((alu_addw 0xffff 2 start).1.zero ≡ ((alu_addw 0xffff 2 start).0 == 0))
addw-sum_example = addw-sum 0xffff 2 start (omega arith) (omega arith)

-- YA = 0x342 by X = 7
divide-quotient_example :
    (7 * (divide start).a + (divide start).y ≡ 0x342)
    × ((divide start).y < 7)
    × ((divide start).overflow ≡ false)
    × ((divide start).zero ≡ ((divide start).a == 0))
divide-quotient_example = divide-quotient start (omega arith) (omega arith)
