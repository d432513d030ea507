-- ===== src/Prelude/Int.antt =====
-- Signed integers over the native numbers: `negsuc n` is -(n + 1).
use Prim.Native.Nat.{ℕ, suc, ◌+◌, ◌-◌}
use homeparentcontrol.Prelude.Tests.{leb, if◌then◌else◌}

pub data ℤ : Type 0 where
  pos : ℕ → ℤ
  negsuc : ℕ → ℤ

abbrev pub pos_part : ℤ → ℕ
pos_part (pos n) = n
pos_part (negsuc n) = 0

abbrev pub neg_part : ℤ → ℕ
neg_part (pos n) = 0
neg_part (negsuc n) = suc n

-- a - b, as an integer.
abbrev pub sub_ℕ : ℕ → ℕ → ℤ
sub_ℕ a b = if leb b a then pos (a - b) else negsuc (b - a - 1)

-- n + a, for a number that stays a number: the source's dates and instants lie after the epoch.
abbrev pub shift : ℕ → ℤ → ℕ
shift n a = n + pos_part a - neg_part a

-- n - a, likewise.
abbrev pub shift_back : ℕ → ℤ → ℕ
shift_back n a = n + neg_part a - pos_part a

-- |a - b|.
abbrev pub distance : ℕ → ℕ → ℕ
distance a b = (a - b) + (b - a)

-- The absolute value.
abbrev pub abs : ℤ → ℕ
abs a = pos_part a + neg_part a
