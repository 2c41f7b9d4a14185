-- ===== src/Agent/Bytes.antt =====
-- The big-endian integers of src/agent/envelope.ts. `DataView.setUint32` and `setBigUint64` reduce
-- their argument modulo 2 ^ 32 and 2 ^ 64; `% 256` at the top byte is that reduction.
use ratline.Prelude.{ℕ, ◌/◌, ◌%◌, ◌^◌, ◌<◌, ◌≡◌, List, [], ◌∷◌, arith, length, refl}

unfoldable pub uint32 : ℕ → List ℕ
uint32 n = (n / 2 ^ 24 % 256) ∷ (n / 2 ^ 16 % 256) ∷ (n / 2 ^ 8 % 256) ∷ (n % 256) ∷ []

unfoldable pub uint64 : ℕ → List ℕ
uint64 n =
    (n / 2 ^ 56 % 256)
    ∷ (n / 2 ^ 48 % 256)
    ∷ (n / 2 ^ 40 % 256)
    ∷ (n / 2 ^ 32 % 256)
    ∷ (n / 2 ^ 24 % 256)
    ∷ (n / 2 ^ 16 % 256)
    ∷ (n / 2 ^ 8 % 256)
    ∷ (n % 256)
    ∷ []

pub length-uint32 : (n : ℕ) → length (uint32 n) ≡ 4
unfolding uint32
length-uint32 n = refl

pub length-uint64 : (n : ℕ) → length (uint64 n) ≡ 8
unfolding uint64
length-uint64 n = refl

pub uint32-injective : (n m : ℕ) → n < 2 ^ 32 → m < 2 ^ 32 → uint32 n ≡ uint32 m → n ≡ m
unfolding uint32
uint32-injective n m p q e = ground arith

pub uint64-injective : (n m : ℕ) → n < 2 ^ 64 → m < 2 ^ 64 → uint64 n ≡ uint64 m → n ≡ m
unfolding uint64
uint64-injective n m p q e = ground arith
