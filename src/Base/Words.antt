-- ===== src/Base/Words.antt =====
-- 64-bit atomics. An `atomic_int_least64_t` is kept as its two's complement pattern, a number below
-- 2^64, with the wrap-around of `atomic_fetch_add` written out.
use Prim.Native.Nat.{ℕ, ◌+◌, ◌-◌, ◌%◌, ◌^◌}

-- `atomic_fetch_add(&x, 1) + 1`
abbrev pub inc64 : ℕ → ℕ
inc64 n = (n + 1) % 2 ^ 64

-- `atomic_fetch_add(&x, -1) - 1`
abbrev pub dec64 : ℕ → ℕ
dec64 n = (n + (2 ^ 64 - 1)) % 2 ^ 64

-- The pattern of -1.
abbrev pub minus_one : ℕ
minus_one = 2 ^ 64 - 1
