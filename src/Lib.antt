-- ===== src/Lib.antt =====
-- A model of spu-kit: an emulator of the SPC700, the sound processor of the SNES, with its APU
-- registers, its DSP and the writers of WAV files.
--
-- The program's parts. `spc700_run_forever` (src/spc700.c) fetches an opcode from `aram` and calls
-- the function that `opcode_tbl` has for it. The functions read their operands through the
-- addressing modes and load and store through `mem_load` and `mem_store`, which send the addresses
-- 0xf0 to 0xff to the APU (src/apu.c): a control register, the window to the registers of the DSP
-- (src/dsp.c), four ports to the host and three timers. The control register also shows or hides the
-- boot ROM over the top of `aram`. Every fourth instruction, `_apu_update_clocks` ticks the timers and
-- runs the DSP. The DSP makes a sample (`next_sample`) from eight voices, each with an envelope and a
-- decoder that reads blocks from `aram`, and an echo that it keeps in a ring in `aram`. The samples go
-- to a WAV file (src/wav.c) by a buffer (src/bufwr.c) and loops over write(2) (src/fd.c).
--
-- Which file models which part:
--   Base        numbers, C's bitwise operators by their digits, arrays as functions
--   Machine     the static variables as one record; actions on it, which return, call `abort()` or
--               fail an `xassert`; the invariant, and the rules for what an action ensures
--   Rom         `ipl_rom` and `_apu_set_show_ipl_rom` of src/spc700.c
--   Dsp         `_dsp_store`, `_dsp_load`, and in Dsp.Counters and Dsp.Rates `ctr_init`, `ctr_run` and
--               `ctr_read` of src/dsp.c
--   Apu         src/apu.c and the macros of src/apu.h
--   Memory      `mem_load`, `mem_store` and the word accesses of src/spc700.c
--   Cpu.Flags, Cpu.Alu, Cpu.Address, Cpu.Stack
--               the helpers of the instructions, under the names that they have in src/spc700.c
--   Cpu.Insn    all `insn_` functions, in a file for each kind; instructions that differ in their
--               operation, register or addressing mode alone share a definition
--   Cpu.Table   `opcode_tbl`
--   Cpu.Run     `spc700_restore` and `spc700_reset`
--   Cpu.Safe    the invariant through every instruction and the restoring of a saved state
--   Sound       the rest of src/dsp.c from `clamp16` to `next_sample`: Sound.Samples has the arithmetic on
--               samples, Sound.Envelope the envelopes, Sound.Brr and Sound.Gauss the decoder and the
--               interpolation, Sound.Voice `voice_run`, Sound.Echo the echo, Sound.Mix `next_sample`,
--               `dsp_restore` and `dsp_reset`
--   Io          the operating system and the allocator, a parameter of the next three: the calls that
--               the code makes (Io), and what they are documented to do (Io.Laws)
--   Fd          `fd_wait_single`, `fd_write` and `fd_pwrite` of src/fd.c
--   Bufwr       every function of src/bufwr.c
--   Wav         every function of src/wav.c
--   Render      `_dsp_run32` of src/dsp.c, which writes the samples of Sound by Wav
--   Play        the loop of `spc700_run_forever` with `_apu_update_clocks`, over the machine, the sound
--               generation with its WAV file and the operating system. Play.Action has the actions on
--               these; an instruction is an action of Machine, which Play runs by `on`
--   Decode      `decode_brr`, `decode_brr_list` and `dump_samples` of src/dsp.c, with what is between
--               them: the decoding of samples to files, which nothing in the source calls
--   Load        src/main.c: `fill_buf`, `load`, `convert_regs`, `dump_ram`, `setup_spc700`
--   Main        `handle_file` and `main` of src/main.c, by Load and Play
--   Hexdump     src/hexdump.c, as the calls of printf(3) that it makes
--   Io.Held     the memory and the open files that are held; Fd.Held, Bufwr.Held, Wav.Held,
--               Wav.Settled and Decode.Balanced follow them through the writers
--   Tests       a machine with a short program, and the theorems on concrete inputs
--
-- Conventions. A `uint8_t` or `uint16_t` is a natural number, and each conversion to one is written
-- `u8` or `u16`. An array is a function of the index; the invariant says that what it holds are
-- bytes, and that indices are in range is shown where the source asserts it. `s.sram` of
-- `union state` is the register file, of which `tdiv` and `tout` name parts. `~` of a byte is
-- `not8`. The endless loop is `run` with a number of rounds; a theorem about `run` holds for every
-- number, so that no bound is chosen.
--
-- A signed number is an integer of Base.Int, with a conversion where C has one to 8 or 16 bits; `int`
-- arithmetic has no bound in the model. In Sound, an access outside of an array and a failed `xassert`
-- are `none`. The retry loops take fuel: a turn of a loop either writes a byte or uses up one of the
-- interruptions that the system is still going to make, so that more fuel than the sum of both is
-- enough, and the theorems show that it is. `decode_brr_list` has a number of turns too, one for each
-- block up to the one with the end flag, and a dump in hexadecimal has fuel above the number of bytes.
-- `main` plays each file for a number of rounds, and ends in an exit of its own if one is not enough.
--
-- What is not modelled: log output and statistics; `print_id666` of src/main.c, and `dump_regs` and
-- `dump_dir` of src/dsp.c, which only print; src/system.c, which writes the log; builds with
-- ACCURATE_SPC700, TIMER_TRACE or the instruction trace. The registers of the DSP and the memory
-- stand in the states of both Machine and Sound: `run_dsp` hands those of the machine to the sound
-- generation and takes them back. What follows the use of a freed pointer is undefined in C, so
-- that the model ends there: `dangling` is a structure that `wav_create` has freed and returns
-- (src/wav.c), and the outcomes `crashes`, `crashed` and `stops_crashed` go on with it or with a
-- NULL pointer, or leave an array in next_sample. `free` takes no pointer in the model, which
-- counts the blocks and does not name them. C leaves open the order of the two calls of `adc` in
-- `alu_addw` and `alu_subw`, of which the model calls the low byte's first, and that of the two
-- reads in `brr_sample4`, of which the model makes the first one first.
pub mod Base
pub mod Machine
pub mod Rom
pub mod Decode
pub mod Hexdump
pub mod Dsp
pub mod Apu
pub mod Memory
pub mod Cpu
pub mod Tests
pub mod Io
pub mod Fd
pub mod Bufwr
pub mod Wav
pub mod Sound
pub mod Load
pub mod Main
pub mod Play
pub mod Render
