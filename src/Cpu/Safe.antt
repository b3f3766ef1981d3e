-- ===== src/Cpu/Safe.antt =====
-- The invariant of the machine through fetching and addressing, and the ranges of their values.
pub mod Stack
pub mod Shape
pub mod Rest
pub mod Insn
pub mod Control
pub mod Table
pub mod Low
pub mod Middle
pub mod High
pub mod Top
pub mod Run
pub mod Restore
use spu_kit.Base.Bits.{or_field}
use spu_kit.Machine.Action.{pure, gets}
use spu_kit.Machine.Valid.{IsValidCpu}
use spu_kit.Cpu.Stack.{stack_addr}
use spu_kit.Memory.Safe.{
  high-IsByte, low-IsByte, joined-IsWord, mem_load_word-Ensures, u16-IsWord, mem_load-Ensures,
}
use spu_kit.Cpu.Address.{
  set_ya, set_y, set_x, set_sp, set_pc, set_carry, set_a, relative, indirect_y, indirect_x,
  immediate, get_ya, fetch_insn, displace, direct_page_x_indirect, direct_page_x,
  direct_page_indirect_y, direct_page_effective, direct_page, branch, absolute_y,
  absolute_x_indirect, absolute_x, absolute,
}
use spu_kit.Machine.Ensures.{
  Ensures-bind, Ensures-registers, Ensures-then, Ensures-pure, Ensures-gets, Ensures-assign,
  ensures_rules, Any, Ensures,
}
use spu_kit.Machine.{Cpu}
use spu_kit.Base.{
  false, if◌then◌else◌, ◌<<<◌, of_bool, true, bit_or, u8, IsWord, IsByte, Bool, ℕ, ◌^◌, ◌<◌, arith,
}

pub set_pc-Ensures : (v : ℕ) → IsWord v → Ensures Any (set_pc v)
unfolding set_pc
set_pc-Ensures v h = Ensures-assign _ (λ c k. omega arith)

pub set_a-Ensures : (v : ℕ) → IsByte v → Ensures Any (set_a v)
unfolding set_a
set_a-Ensures v h = Ensures-assign _ (λ c k. omega arith)

pub set_x-Ensures : (v : ℕ) → IsByte v → Ensures Any (set_x v)
unfolding set_x
set_x-Ensures v h = Ensures-assign _ (λ c k. omega arith)

pub set_y-Ensures : (v : ℕ) → IsByte v → Ensures Any (set_y v)
unfolding set_y
set_y-Ensures v h = Ensures-assign _ (λ c k. omega arith)

pub set_sp-Ensures : (v : ℕ) → IsByte v → Ensures Any (set_sp v)
unfolding set_sp
set_sp-Ensures v h = Ensures-assign _ (λ c k. omega arith)

pub set_carry-Ensures : (v : Bool) → Ensures Any (set_carry v)
unfolding set_carry
set_carry-Ensures v = Ensures-assign _ (λ c k. omega arith)

-- The ranges of the values that the code computes from registers and bytes.
pub a-IsByte : {c : Cpu} → IsValidCpu c → IsByte c.a
a-IsByte v = v.a_fits

pub x-IsByte : {c : Cpu} → IsValidCpu c → IsByte c.x
x-IsByte v = v.x_fits

pub y-IsByte : {c : Cpu} → IsValidCpu c → IsByte c.y
y-IsByte v = v.y_fits

pub pc-IsWord : {c : Cpu} → IsValidCpu c → IsWord c.pc
pc-IsWord v = v.pc_fits

pub u8-IsByte : (n : ℕ) → IsByte (u8 n)
u8-IsByte n = omega arith

pub get_ya-IsWord : {c : Cpu} → IsValidCpu c → IsWord (get_ya c)
unfolding get_ya
get_ya-IsWord {c} v = joined-IsWord c.y c.a v.y_fits v.a_fits

page : (b : Bool) (n : ℕ) → IsByte n → IsWord (bit_or (of_bool b <<< 8) n)
page true n h = omega (arith, or_field 8 1 n h)
page false n h = omega (arith, or_field 8 0 n h)

pub effective-IsWord : (addr : ℕ) (c : Cpu) → IsByte addr → IsWord (direct_page_effective addr c)
unfolding direct_page_effective
effective-IsWord addr c h = page c.psw_p addr h

pub stack_addr-IsWord : {c : Cpu} → IsValidCpu c → IsWord (stack_addr c)
unfolding stack_addr
stack_addr-IsWord {c} v = page true c.sp v.sp_fits

pub ruleset range_rules = (
  a-IsByte, x-IsByte, y-IsByte, pc-IsWord, u8-IsByte, u16-IsWord, joined-IsWord, get_ya-IsWord,
  low-IsByte, high-IsByte, effective-IsWord, stack_addr-IsWord,
)

pub set_ya-Ensures : (ya : ℕ) → IsWord ya → Ensures Any (set_ya ya)
unfolding set_ya
set_ya-Ensures ya h = search (set_y-Ensures, set_a-Ensures, range_rules, ensures_rules) depth 8

fetch_at-Ensures : (pc : ℕ) → Ensures IsByte (gets (λ s. s.aram pc))
fetch_at-Ensures pc = Ensures-gets _ (λ s v. v.aram_fits pc)

pub fetch_insn-Ensures : Ensures IsByte fetch_insn
unfolding fetch_insn
fetch_insn-Ensures =
    Ensures-bind _ _ Ensures-registers
      (λ c v. Ensures-then _ _ (set_pc-Ensures _ (u16-IsWord _)) (fetch_at-Ensures c.pc))

pub immediate-Ensures : Ensures IsByte immediate
unfolding immediate
immediate-Ensures = fetch_insn-Ensures

pub relative-Ensures : Ensures IsByte relative
unfolding relative
relative-Ensures = fetch_insn-Ensures

displace-IsWord : (pc disp : ℕ) → IsWord (displace pc disp)
unfolding displace
displace-IsWord pc disp = omega arith

pub branch-Ensures : (disp : ℕ) → Ensures Any (branch disp)
unfolding branch
branch-Ensures disp = search (set_pc-Ensures, displace-IsWord, ensures_rules)

pub branch_when-Ensures : (b : Bool) (disp : ℕ) → Ensures Any (if b then branch disp else pure tt)
branch_when-Ensures true disp = branch-Ensures disp
branch_when-Ensures false disp = Ensures-pure tt tt

pub ruleset fetch_rules =
    (fetch_insn-Ensures, mem_load-Ensures, mem_load_word-Ensures, range_rules, ensures_rules)

pub direct_page-Ensures : Ensures IsWord direct_page
unfolding direct_page
direct_page-Ensures = search fetch_rules depth 8

pub direct_page_x-Ensures : Ensures IsWord direct_page_x
unfolding direct_page_x
direct_page_x-Ensures = search fetch_rules depth 8

pub direct_page_indirect_y-Ensures : Ensures IsWord direct_page_indirect_y
unfolding direct_page_indirect_y
direct_page_indirect_y-Ensures = Ensures-bind _ _ direct_page-Ensures (λ ind_addr _.
    Ensures-bind _ _ (mem_load_word-Ensures ind_addr)
      (λ addr _. Ensures-bind _ _ Ensures-registers (λ c _. Ensures-pure _ (u16-IsWord _))))

pub direct_page_x_indirect-Ensures : Ensures IsWord direct_page_x_indirect
unfolding direct_page_x_indirect
direct_page_x_indirect-Ensures = search (direct_page_x-Ensures, fetch_rules) depth 8

pub indirect_x-Ensures : Ensures IsWord indirect_x
unfolding indirect_x
indirect_x-Ensures = search fetch_rules depth 8

pub indirect_y-Ensures : Ensures IsWord indirect_y
unfolding indirect_y
indirect_y-Ensures = search fetch_rules depth 8

pub absolute-Ensures : Ensures IsWord absolute
unfolding absolute
absolute-Ensures = search fetch_rules depth 8

pub absolute_x-Ensures : Ensures IsWord absolute_x
unfolding absolute_x
absolute_x-Ensures = search (absolute-Ensures, fetch_rules) depth 8

pub absolute_y-Ensures : Ensures IsWord absolute_y
unfolding absolute_y
absolute_y-Ensures = search (absolute-Ensures, fetch_rules) depth 8

pub absolute_x_indirect-Ensures : Ensures IsWord absolute_x_indirect
unfolding absolute_x_indirect
absolute_x_indirect-Ensures = search (absolute_x-Ensures, fetch_rules) depth 8
