-- ===== src/Base/Bits.antt =====
-- Tables over small ranges, and the bits of a byte.
use Prim.Native.Nat.{ℕ, zero, suc, ◌+◌, ◌*◌, ◌/◌, ◌%◌, ◌^◌, ◌<◌}
pub use Prim.Native.Nat.{bit_or}
use mathlib.Core.Path.{◌≡◌, refl}
use mathlib.Core.Logic.{inl, inr}
use mathlib.Core.Bool.{Bool, true, false, ◌&&◌, ◌||◌}
use native.Mathlib.Omega.{arith}
use wlan_opc.Base.Tests.{ltb, ltb→lt, ◌==◌, Bool-cases}

-- A test holds of the first `n` numbers; a finite table is checked by running it.
unfoldable pub table : (ℕ → Bool) → ℕ → Bool
table test zero = true
table test (suc n) = table test n && test n

pub table_lem : (test : ℕ → Bool) (n k : ℕ) → table test n ≡ true → k < n → test k ≡ true
unfolding table
table_lem test zero k run lt = absurd (omega arith)
table_lem test (suc n) k run lt = elim (Bool-cases (k == n)) [
  | inl e ↦ let eq : k ≡ n = ground arith in rw eq (ground arith)
  | inr e ↦ table_lem test n k (ground arith) (ground arith)
]

-- A table of two arguments, row by row.
pub table₂_lem :
    (test : ℕ → ℕ → Bool) (m n j k : ℕ)
    → table (λ a. table (test a) n) m ≡ true
    → j < m
    → k < n
    → test j k ≡ true
table₂_lem test m n j k run lj lk =
    table_lem (test j) n k (table_lem (λ a. table (test a) n) m j run lj) lk

-- `(v >> k) & 1`
abbrev pub test_bit : ℕ → ℕ → Bool
test_bit v k = (v / 2 ^ k) % 2 == 1

abbrev same_bool : Bool → Bool → Bool
same_bool true b = b
same_bool false true = false
same_bool false false = true

same_bool→eq : (a b : Bool) → same_bool a b ≡ true → a ≡ b
same_bool→eq true true h = refl
same_bool→eq true false h = cc
same_bool→eq false true h = cc
same_bool→eq false false h = refl

bit_or_range : table (λ v. table (λ k. ltb (bit_or v (2 ^ k)) 256) 8) 256 ≡ true
unfolding table
bit_or_range = refl

-- Setting a bit of a byte leaves a byte, with that bit and the others as they were.
pub bit_or-lt : (v k : ℕ) → v < 256 → k < 8 → bit_or v (2 ^ k) < 256
bit_or-lt v k h l =
    ltb→lt _ _ (table₂_lem (λ a b. ltb (bit_or a (2 ^ b)) 256) 256 8 v k bit_or_range h l)

-- `jk` is a pair of bits, the one that is set and the one that is read.
abbrev bit_or_case : ℕ → ℕ → Bool
bit_or_case v jk =
    same_bool (test_bit (bit_or v (2 ^ (jk / 8))) (jk % 8))
      (((jk % 8) == (jk / 8)) || test_bit v (jk % 8))

bit_or_bits : table (λ v. table (bit_or_case v) 64) 256 ≡ true
unfolding table
bit_or_bits = refl

pub test_bit-bit_or :
    (v k j : ℕ)
    → v < 256
    → k < 8
    → j < 8
    → test_bit (bit_or v (2 ^ k)) j ≡ ((j == k) || test_bit v j)
test_bit-bit_or v k j h lk lj =
    let hi : (8 * k + j) / 8 ≡ k = omega arith in
    let lo : (8 * k + j) % 8 ≡ j = omega arith in
    let table = table₂_lem bit_or_case 256 64 v (8 * k + j) bit_or_bits h (omega arith) in
    same_bool→eq (test_bit (bit_or v (2 ^ k)) j) ((j == k) || test_bit v j) (rw (hi, lo) at table)
