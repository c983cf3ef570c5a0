-- ===== src/Prelude/Int128.antt =====
-- The checked and saturating operations of Rust's i128 and of its unsigned integers.
use Prim.Native.Nat.{ℕ, zero, ◌+◌, ◌-◌, ◌%◌, ◌^◌}
use mathlib.Core.Bool.{Bool}
use mathlib.Core.Option.{Option, none, some}
use kora_contract.Prelude.Tests.{ltb, if◌then◌else◌}
use kora_contract.Prelude.Int.{ℤ, pos, negsuc, ◌+ℤ◌, ◌-ℤ◌, ◌*ℤ◌, ◌/ℤ◌}

-- 2 ^ 127: an i128 runs from its negation up to one less than it.
abbrev pub i128_half : ℕ
i128_half = 2 ^ 127

abbrev pub i128_max : ℤ
i128_max = pos (2 ^ 127 - 1)

abbrev pub u32_limit : ℕ
u32_limit = 2 ^ 32

abbrev pub u64_limit : ℕ
u64_limit = 2 ^ 64

abbrev pub in_i128 : ℤ → Bool
in_i128 (pos n) = ltb n i128_half
in_i128 (negsuc n) = ltb n i128_half

-- The value, if it is an i128.
abbrev pub checked : ℤ → Option ℤ
checked z = if in_i128 z then some z else none

abbrev pub saturated : ℤ → ℤ
saturated (pos n) = if ltb n i128_half then pos n else pos (2 ^ 127 - 1)
saturated (negsuc n) = if ltb n i128_half then negsuc n else negsuc (2 ^ 127 - 1)

abbrev pub checked_add : ℤ → ℤ → Option ℤ
checked_add a b = checked (a +ℤ b)

abbrev pub checked_sub : ℤ → ℤ → Option ℤ
checked_sub a b = checked (a -ℤ b)

abbrev pub checked_mul : ℤ → ℤ → Option ℤ
checked_mul a b = checked (a *ℤ b)

abbrev pub checked_div : ℤ → ℤ → Option ℤ
checked_div a (pos zero) = none
checked_div a b = checked (a /ℤ b)

abbrev pub saturating_add : ℤ → ℤ → ℤ
saturating_add a b = saturated (a +ℤ b)

abbrev pub saturating_sub : ℤ → ℤ → ℤ
saturating_sub a b = saturated (a -ℤ b)

-- `checked_add` of a u32 or a u64, by its limit.
abbrev pub checked_add_u : ℕ → ℕ → ℕ → Option ℕ
checked_add_u limit a b = if ltb (a + b) limit then some (a + b) else none

-- `saturating_add` of a u32 or a u64, by its limit.
abbrev pub saturating_add_u : ℕ → ℕ → ℕ → ℕ
saturating_add_u limit a b = if ltb (a + b) limit then a + b else limit - 1

-- `as u32`
abbrev pub as_u32 : ℤ → ℕ
as_u32 (pos n) = n % 2 ^ 32
as_u32 (negsuc n) = 2 ^ 32 - 1 - n % 2 ^ 32
