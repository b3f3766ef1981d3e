-- ===== src/Cpu/Stack/RoundTrip.antt =====
-- Pushing and popping on the stack of spc700.c in turn.
use spu_kit.Cpu.Insn.Branch.{insn_ret}
use spu_kit.Machine.Action.{done, ◌>>=◌}
use spu_kit.Machine.Action.{◌>>=◌}
use spu_kit.Cpu.Address.{set_pc, set_sp}
use spu_kit.Cpu.Stack.{call, push_word, pop_word, stack_addr, push_byte, pop_byte}
use spu_kit.Base.Bits.{and_mask, or_field}
use spu_kit.Memory.{poke, mem_store, mem_load, apu_mmio_address}
use spu_kit.Memory.Safe.{and_fff0}
use spu_kit.Base.{
  ==_refl, ◌∙◌, ◌<<<◌, ◌>>>◌, ◌==◌, bit_or, bit_and, ◌≡◌, ◌+◌, ℕ, update, u8, refl, false, arith,
  IsByte,
}
use spu_kit.Machine.{Machine, Cpu}

-- The address of the stack at `sp` is in page 1, where there is no APU register.
stack_addr_lem : (c : Cpu) → IsByte c.sp → stack_addr c ≡ 256 + c.sp
unfolding stack_addr
stack_addr_lem c h = or_field 8 1 c.sp h

stack_is_ram : (sp : ℕ) → IsByte sp → apu_mmio_address (256 + sp) ≡ false
unfolding apu_mmio_address
stack_is_ram sp h = ground (arith, and_fff0 (256 + sp) (omega arith))

-- The machine after a byte is pushed.
abbrev pub pushed : ℕ → Machine → Machine
pushed byte s = record s {
  cpu = record s.cpu { sp = u8 (s.cpu.sp + 255) };
  aram = update s.aram (256 + s.cpu.sp) byte;
}

pub push_byte_lem :
    (byte : ℕ) (s : Machine) → IsByte s.cpu.sp → push_byte byte s ≡ done tt (pushed byte s)
unfolding push_byte ◌>>=◌ mem_store poke set_sp
push_byte_lem byte s h = rw (stack_addr_lem s.cpu h, stack_is_ram s.cpu.sp h) refl

abbrev popped : Machine → Machine
popped s = record s { cpu = record s.cpu { sp = u8 (s.cpu.sp + 1) } }

pub pop_byte_lem : (s : Machine) → pop_byte s ≡ done (s.aram (256 + u8 (s.cpu.sp + 1))) (popped s)
unfolding pop_byte ◌>>=◌ mem_load set_sp
pop_byte_lem s =
    let fits : IsByte (u8 (s.cpu.sp + 1)) = omega arith in
    rw (stack_addr_lem (popped s).cpu fits, stack_is_ram (u8 (s.cpu.sp + 1)) fits) refl

-- Popping after a byte is pushed gives the byte and the stack pointer from before, at every stack
-- pointer, the wrap to 0xff included.
pub push-pop :
    (byte : ℕ) (s : Machine)
    → IsByte s.cpu.sp
    → (push_byte byte >>= λ _. pop_byte) s
      ≡ done byte (record s { aram = update s.aram (256 + s.cpu.sp) byte })
unfolding ◌>>=◌
push-pop byte s h =
    let back : u8 (u8 (s.cpu.sp + 255) + 1) ≡ s.cpu.sp = omega arith in
    rw (push_byte_lem byte s h, pop_byte_lem (pushed byte s), back)
      (rw (==_refl (256 + s.cpu.sp)) refl)

-- The memory after a word is pushed at `sp`: the high byte first, so that it stands above.
abbrev pub stacked : ℕ → Machine → ℕ → ℕ
stacked word s =
    update (update s.aram (256 + s.cpu.sp) (word >>> 8)) (256 + u8 (s.cpu.sp + 255))
      (bit_and word 0xff)

other : (sp : ℕ) → IsByte sp → (256 + u8 (sp + 255) == 256 + sp) ≡ false
other sp h = ground arith

join_word : (word : ℕ) → bit_or (word >>> 8 <<< 8) (bit_and word 0xff) ≡ word
join_word word =
    let low = and_mask 8 word in
    or_field 8 (word >>> 8) (bit_and word 0xff) (omega arith) ∙ omega arith

-- Popping after a word is pushed gives the word and the stack pointer from before, at every stack
-- pointer; the word stays in the memory below.
pub push-pop_word :
    (word : ℕ) (s : Machine)
    → IsByte s.cpu.sp
    → (push_word word >>= λ _. pop_word) s ≡ done word (record s { aram = stacked word s })
unfolding ◌>>=◌ push_word pop_word
push-pop_word word s h =
    let t = pushed (word >>> 8) s in
    let u = pushed (bit_and word 0xff) t in
    let first : u8 (u8 (t.cpu.sp + 255) + 1) ≡ u8 (s.cpu.sp + 255) = omega arith in
    let second : u8 (u8 (s.cpu.sp + 255) + 1) ≡ s.cpu.sp = omega arith in
    rw (push_byte_lem (word >>> 8) s h) (
      rw (push_byte_lem (bit_and word 0xff) t (omega arith)) (
        rw (pop_byte_lem u, first)
          (rw (pop_byte_lem (record u { cpu = t.cpu }), second)
            (rw
              (
                ==_refl (256 + u8 (s.cpu.sp + 255)),
                other s.cpu.sp h,
                ==_refl (256 + s.cpu.sp),
                join_word word,
              )
              refl))))

-- `ret` after a call of any address returns to the instruction after the call, with all registers
-- as before the call.
pub call-ret :
    (addr : ℕ) (s : Machine)
    → IsByte s.cpu.sp
    → (call addr >>= λ _. insn_ret) s ≡ done tt (record s { aram = stacked s.cpu.pc s })
unfolding ◌>>=◌ call push_word pop_word set_pc insn_ret
call-ret addr s h =
    let pc = s.cpu.pc in
    let t = pushed (pc >>> 8) s in
    let u = pushed (bit_and pc 0xff) t in
    let v = record u { cpu = record u.cpu { pc = addr } } in
    let first : u8 (u8 (t.cpu.sp + 255) + 1) ≡ u8 (s.cpu.sp + 255) = omega arith in
    let second : u8 (u8 (s.cpu.sp + 255) + 1) ≡ s.cpu.sp = omega arith in
    rw (push_byte_lem (pc >>> 8) s h) (
      rw (push_byte_lem (bit_and pc 0xff) t (omega arith)) (
        rw (pop_byte_lem v, first)
          (rw (pop_byte_lem (record v { cpu = record t.cpu { pc = addr } }), second)
            (rw
              (
                ==_refl (256 + u8 (s.cpu.sp + 255)),
                other s.cpu.sp h,
                ==_refl (256 + s.cpu.sp),
                join_word pc,
              )
              refl))))
