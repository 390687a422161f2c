-- ===== src/Go/Fnv.antt =====
-- hash/fnv: `New32a`, `Write` of the bytes, `Sum32`.
use Prim.Native.Nat.{bit_xor}
use fluffy_dollop.Base.{ℕ, ◌*◌, ◌%◌, ◌^◌, ◌<◌, [], ◌∷◌, arith}
use fluffy_dollop.Base.Text.{Text}

abbrev pub offset32 : ℕ
offset32 = 2166136261

abbrev pub prime32 : ℕ
prime32 = 16777619

unfoldable pub write : ℕ → Text → ℕ
write h [] = h
write h (c ∷ s) = write (bit_xor h c * prime32 % 2 ^ 32) s

unfoldable pub sum32a : Text → ℕ
unfolding write
sum32a key = write offset32 key

write-lt : (h : ℕ) (s : Text) → h < 2 ^ 32 → write h s < 2 ^ 32
unfolding write
write-lt h [] lt = lt
write-lt h (c ∷ s) lt = write-lt (bit_xor h c * prime32 % 2 ^ 32) s (omega arith)

-- The hash is a uint32, so `int` holds it and does not make it negative.
pub sum32a-lt : (s : Text) → sum32a s < 2 ^ 32
unfolding sum32a
sum32a-lt s = write-lt offset32 s (omega arith)
