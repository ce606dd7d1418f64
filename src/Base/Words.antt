-- ===== src/Base/Words.antt =====
-- Machine words: the sizes of the source's integer types.
use Prim.Native.Nat.{ℕ, ◌^◌}

abbrev pub i64_mod : ℕ
i64_mod = 2 ^ 64

-- One more than the largest i64.
abbrev pub i64_half : ℕ
i64_half = 2 ^ 63
