-- ===== src/Common/Words.antt =====
-- Go's `int` and its conversion to `int32`: two's complement, by the residue modulo 2 ^ w.
use Prim.Native.Nat.{ℕ, suc, ◌+◌, ◌-◌, ◌*◌, ◌/◌, ◌%◌, ◌^◌, ◌<◌}
use mathlib.Core.Path.{◌≡◌}
use native.Mathlib.Omega.{arith}
use wallet_ledger_service.Common.Tests.{ltb, if◌then◌else◌}
use wallet_ledger_service.Common.Int.{ℤ, pos, negsuc, pos_part, neg_part, sub_ℕ}

abbrev residue : ℕ → ℤ → ℕ
residue m (pos n) = n % m
residue m (negsuc n) = m - 1 - n % m

-- The number that a residue modulo `2 * half` stands for.
abbrev signed : ℕ → ℕ → ℤ
signed half r = if ltb r half then pos r else negsuc (2 * half - 1 - r)

unfoldable pub int32 : ℤ → ℤ
int32 x = signed (2 ^ 31) (residue (2 ^ 32) x)

unfoldable pub int64 : ℤ → ℤ
int64 x = signed (2 ^ 63) (residue (2 ^ 64) x)

infixl 70 ◌*ℤ◌
unfoldable pub ◌*ℤ◌ : ℤ → ℤ → ℤ
a *ℤ b =
    sub_ℕ (pos_part a * pos_part b + neg_part a * neg_part b)
      (pos_part a * neg_part b + neg_part a * pos_part b)

-- Go's `/` on integers, which rounds towards zero.
unfoldable pub quot : ℤ → ℤ → ℤ
quot (pos a) (pos b) = pos (a / b)
quot (pos a) (negsuc b) = sub_ℕ 0 (a / suc b)
quot (negsuc a) (pos b) = sub_ℕ 0 (suc a / b)
quot (negsuc a) (negsuc b) = pos (suc a / suc b)

pub int32-pos : (n : ℕ) → n < 2 ^ 31 → int32 (pos n) ≡ pos n
unfolding int32
int32-pos n h = ground arith

pub int64-pos : (n : ℕ) → n < 2 ^ 63 → int64 (pos n) ≡ pos n
unfolding int64
int64-pos n h = ground arith

pub pos-*ℤ-pos : (a b : ℕ) → pos a *ℤ pos b ≡ pos (a * b)
unfolding ◌*ℤ◌
pos-*ℤ-pos a b = ground arith
