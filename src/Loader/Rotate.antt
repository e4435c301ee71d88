-- ===== src/Loader/Rotate.antt =====
-- The rotations of the loader and of the compiler.
use weeper_vm.Base.{ℕ, ◌+◌, ◌*◌, ◌/◌, ◌%◌, ◌^◌, ◌<◌, ◌≡◌, arith}
use weeper_vm.Base.Bits.{or_join, or_join_low, and_low}
use weeper_vm.Strings.{rol32, ror32}
use weeper_vm.Loader.{compile_rol32, compile_ror32}

rol32_13 : (x : ℕ) → x < 2 ^ 32 → rol32 x 13 ≡ x % 524288 * 8192 + x / 524288
unfolding rol32
rol32_13 x h = ground (arith, or_join 13 (x % 524288) (x / 524288))

compile_ror32_13 : (x : ℕ) → x < 2 ^ 32 → compile_ror32 x 13 ≡ x % 8192 * 524288 + x / 8192
unfolding compile_ror32
compile_ror32_13 x h =
    ground (arith, or_join_low 19 x (x / 8192), and_low 32 (x * 524288 + x / 8192))

compile_rol32_27 : (x : ℕ) → x < 2 ^ 32 → compile_rol32 x 27 ≡ x % 32 * 134217728 + x / 32
unfolding compile_rol32
compile_rol32_27 x h = ground (arith, or_join 27 x (x / 32), and_low 32 (x * 134217728 + x / 32))

ror32_27 : (x : ℕ) → x < 2 ^ 32 → ror32 x 27 ≡ x % 134217728 * 32 + x / 134217728
unfolding ror32
ror32_27 x h = ground (arith, or_join_low 5 (x % 134217728) (x / 134217728))

pub compile_ror32-lt : (x : ℕ) → x < 2 ^ 32 → compile_ror32 x 13 < 2 ^ 32
compile_ror32-lt x h = omega (arith, compile_ror32_13 x h)

pub compile_rol32-lt : (x : ℕ) → x < 2 ^ 32 → compile_rol32 x 27 < 2 ^ 32
compile_rol32-lt x h = omega (arith, compile_rol32_27 x h)

-- The loader rotates back what the compiler has rotated.
pub rol32-compile_ror32 : (x : ℕ) → x < 2 ^ 32 → rol32 (compile_ror32 x 13) 13 ≡ x
rol32-compile_ror32 x h =
    omega (arith, rol32_13 (compile_ror32 x 13) (compile_ror32-lt x h), compile_ror32_13 x h)

pub ror32-compile_rol32 : (x : ℕ) → x < 2 ^ 32 → ror32 (compile_rol32 x 27) 27 ≡ x
ror32-compile_rol32 x h =
    omega (arith, ror32_27 (compile_rol32 x 27) (compile_rol32-lt x h), compile_rol32_27 x h)
