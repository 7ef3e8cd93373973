-- ===== src/Core/Alu.antt =====
-- `alu_exec` of difftest/src/rv_core.hpp, on 64-bit patterns.
pub mod Laws
pub mod Division
use hdu_cpu_lab.Common.{
  ℕ, ◌+◌, ◌-◌, ◌*◌, ◌/◌, ◌%◌, ◌^◌, Bool, true, false, ◌&&◌, Option, none, some, bit_and, bit_or,
  bit_xor, ltb, ◌==◌, if◌then◌else◌,
}
use hdu_cpu_lab.Common.Words.{u64, u32, sext, sub64, lt_signed}

-- enum alu_op
pub data AluOp : Type 0 where
  alu_add alu_sub alu_sll alu_slt alu_sltu alu_xor alu_srl alu_sra alu_or alu_and : AluOp
  alu_mul alu_mulh alu_mulhu alu_mulhsu alu_div alu_divu alu_rem alu_remu alu_nop : AluOp

abbrev pub int_min : ℕ
int_min = 2 ^ 63

abbrev pub minus_one : ℕ
minus_one = 2 ^ 64 - 1

-- The distance from 0 of the int64_t of this pattern, and the pattern of its negation.
abbrev pub magnitude : ℕ → ℕ
magnitude a = if ltb a (2 ^ 63) then a else 2 ^ 64 - a

abbrev pub negate : ℕ → ℕ
negate a = u64 (2 ^ 64 - a)

-- int64_t a / b and a % b, which round towards 0.
unfoldable pub quotient : ℕ → ℕ → ℕ
quotient a b =
    let q = magnitude a / magnitude b in
    if ltb a (2 ^ 63)
    then if ltb b (2 ^ 63) then q else negate q
    else if ltb b (2 ^ 63)
    then negate q
    else q

unfoldable pub remainder : ℕ → ℕ → ℕ
remainder a b = let r = magnitude a % magnitude b in if ltb a (2 ^ 63) then r else negate r

-- a >> n of int64_t
unfoldable pub shift_right : ℕ → ℕ → ℕ
shift_right a n = if ltb a (2 ^ 63) then a / 2 ^ n else 2 ^ 64 - 1 - (2 ^ 64 - 1 - a) / 2 ^ n

-- A pattern widened to __int128_t.
abbrev pub widen : ℕ → ℕ
widen a = if ltb a (2 ^ 63) then a else a + 2 ^ 128 - 2 ^ 64

abbrev pub high : ℕ → ℕ
high product = product % 2 ^ 128 / 2 ^ 64

abbrev shamt : Bool → ℕ → ℕ
shamt op_32 b = b % (if op_32 then 32 else 64)

-- The switch of `alu_exec`; `none` is the failed assertion of its default case.
unfoldable pub alu_switch : AluOp → Bool → ℕ → ℕ → Option ℕ
unfolding quotient remainder shift_right
alu_switch alu_add op_32 a b = some (u64 (a + b))
alu_switch alu_sub op_32 a b = some (sub64 a b)
alu_switch alu_sll op_32 a b = some (u64 (a * 2 ^ shamt op_32 b))
alu_switch alu_slt op_32 a b = some (if lt_signed a b then 1 else 0)
alu_switch alu_sltu op_32 a b = some (if ltb a b then 1 else 0)
alu_switch alu_xor op_32 a b = some (bit_xor a b)
alu_switch alu_srl op_32 a b = some ((if op_32 then u32 a else a) / 2 ^ shamt op_32 b)
alu_switch alu_sra op_32 a b = some (shift_right a (shamt op_32 b))
alu_switch alu_or op_32 a b = some (bit_or a b)
alu_switch alu_and op_32 a b = some (bit_and a b)
alu_switch alu_mul op_32 a b = some (u64 (a * b))
alu_switch alu_mulh op_32 a b = some (high (widen a * widen b))
alu_switch alu_mulhu op_32 a b = some (high (a * b))
alu_switch alu_mulhsu op_32 a b = some (high (widen a * b))
alu_switch alu_div op_32 a b =
    some (
      if b == 0
      then minus_one
      else if a == int_min && b == minus_one
      then int_min
      else quotient a b)
alu_switch alu_divu op_32 a b =
    some (if b == 0 then 2 ^ 64 - 1 else if op_32 then u32 a / u32 b else a / b)
alu_switch alu_rem op_32 a b =
    some (if b == 0 then a else if a == int_min && b == minus_one then 0 else remainder a b)
alu_switch alu_remu op_32 a b = some (if b == 0 then a else if op_32 then u32 a % u32 b else a % b)
alu_switch alu_nop op_32 a b = none

-- The operands are cut to int32_t before, and the result after.
abbrev pub narrow : Bool → ℕ → ℕ
narrow op_32 a = if op_32 then sext 32 a else a

abbrev pub narrow_result : Bool → Option ℕ → Option ℕ
narrow_result op_32 none = none
narrow_result op_32 (some result) = some (narrow op_32 result)

unfoldable pub alu_exec : ℕ → ℕ → AluOp → Bool → Option ℕ
unfolding alu_switch
alu_exec a b op op_32 = narrow_result op_32 (alu_switch op op_32 (narrow op_32 a) (narrow op_32 b))
