-- ===== src/Cpu/Safe/Stack.antt =====
-- The invariant of the machine through the stack and the bits of memory.
use native.Mathlib.Nat.{pow-le-pow_right}
use spu_kit.Memory.Safe.{mem_store-Ensures, mem_load_word-Ensures, mem_load-Ensures}
use spu_kit.Base.Bits.{xor-lt, or-lt, and_mask, and-lt}
use spu_kit.Cpu.Safe.{
  u8-IsByte, stack_addr-IsWord, set_sp-Ensures, set_pc-Ensures, range_rules, absolute-Ensures,
}
use spu_kit.Machine.Ensures.{
  Ensures-bind, Ensures-registers, Ensures-then, ensures_rules, Ensures-bind, Any, Ensures,
}
use spu_kit.Cpu.Stack.{tcall, push_word, push_byte, pop_word, pop_byte, call}
use spu_kit.Cpu.Address.{bitaddr_store, bitaddr_load, bitaddr_init, bitaddr, Bitaddr}
use spu_kit.Base.{
  false, true, not8, if◌then◌else◌, bit_xor, bit_or, bit_and, IsWord, ◌<<<◌, IsByte, Bool, ℕ, ◌^◌,
  ◌<◌, arith,
}

pub push_byte-Ensures : (byte : ℕ) → IsByte byte → Ensures Any (push_byte byte)
unfolding push_byte
push_byte-Ensures byte h = Ensures-bind _ _ Ensures-registers (λ c v.
    Ensures-then _ _ (mem_store-Ensures _ byte (stack_addr-IsWord v) h)
      (set_sp-Ensures _ (u8-IsByte _)))

pub pop_byte-Ensures : Ensures IsByte pop_byte
unfolding pop_byte
pop_byte-Ensures = Ensures-bind _ _ Ensures-registers (λ c _.
    Ensures-then _ _ (set_sp-Ensures _ (u8-IsByte _))
      (Ensures-bind _ _ Ensures-registers (λ d v. mem_load-Ensures _ (stack_addr-IsWord v))))

pub push_word-Ensures : (word : ℕ) → IsWord word → Ensures Any (push_word word)
unfolding push_word
push_word-Ensures word h = search (push_byte-Ensures, range_rules, ensures_rules)

pub pop_word-Ensures : Ensures IsWord pop_word
unfolding pop_word
pop_word-Ensures = search (pop_byte-Ensures, range_rules, ensures_rules)

pub call-Ensures : (addr : ℕ) → IsWord addr → Ensures Any (call addr)
unfolding call
call-Ensures addr h =
    Ensures-bind _ _ Ensures-registers
      (λ c v. Ensures-then _ _ (push_word-Ensures c.pc v.pc_fits) (set_pc-Ensures addr h))

pub tcall-Ensures : (slot : ℕ) → Ensures Any (tcall slot)
unfolding tcall
tcall-Ensures slot = Ensures-bind _ _ (mem_load_word-Ensures _) (λ addr h. call-Ensures addr h)

-- A bit address: of the first 8 KiB, with a bit of a byte.
pub record IsBitaddr (m : Bitaddr) : Type 0 where
  pub addr_fits : m.addr < 2 ^ 13
  pub bit_fits : m.bit < 8

init-IsBitaddr : (word : ℕ) → IsWord word → IsBitaddr (bitaddr_init word)
unfolding bitaddr_init
init-IsBitaddr word h = omega (arith, and_mask 13 word)

pub bitaddr-Ensures : Ensures IsBitaddr bitaddr
unfolding bitaddr
bitaddr-Ensures = search (absolute-Ensures, init-IsBitaddr, ensures_rules)

pub bitaddr-IsWord : {m : Bitaddr} → IsBitaddr m → IsWord m.addr
bitaddr-IsWord h = omega arith

pub bit-IsByte : (k : ℕ) → k < 8 → IsByte (1 <<< k)
bit-IsByte k h = omega (arith, pow-le-pow_right {n = 2} (omega arith) {i = k} {j = 7} (omega arith))

pub or-IsByte : (a b : ℕ) → IsByte a → IsByte b → IsByte (bit_or a b)
or-IsByte a b = or-lt 8 a b

pub and-IsByte : (a b : ℕ) → IsByte a → IsByte (bit_and a b)
and-IsByte a b = and-lt 8 a b

pub xor-IsByte : (a b : ℕ) → IsByte a → IsByte b → IsByte (bit_xor a b)
xor-IsByte a b = xor-lt 8 a b

pub bitaddr_load-Ensures : (m : Bitaddr) → IsBitaddr m → Ensures Any (bitaddr_load m)
unfolding bitaddr_load
bitaddr_load-Ensures m h = search (mem_load-Ensures, bitaddr-IsWord, ensures_rules)

written :
    (b : Bool) (byte k : ℕ)
    → IsByte byte
    → k < 8
    → IsByte (if b then bit_or byte (1 <<< k) else bit_and byte (not8 (1 <<< k)))
written true byte k h hk = or-IsByte byte _ h (bit-IsByte k hk)
written false byte k h hk = and-IsByte byte _ h

pub bitaddr_store-Ensures :
    (m : Bitaddr) (val : Bool) → IsBitaddr m → Ensures Any (bitaddr_store m val)
unfolding bitaddr_store
bitaddr_store-Ensures m val h =
    Ensures-bind _ _ (mem_load-Ensures m.addr (bitaddr-IsWord h)) (λ byte hb.
      mem_store-Ensures m.addr _ (bitaddr-IsWord h) (written val byte m.bit hb h.bit_fits))
