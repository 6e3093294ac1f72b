-- ===== src/Base/Words.antt =====
-- Machine words: `u8`, `u16` and `u32` values are numbers that wrap where the source stores them.
use Prim.Native.Nat.{ℕ, zero, suc, ◌+◌, ◌%◌, ◌<◌, bit_and}
use mathlib.Core.Path.{◌≡◌, refl}
use mathlib.Core.Bool.{Bool, true, false}
use native.Mathlib.Omega.{arith}
use itertk.Base.Tests.{◌==◌, ==→eq, if◌then◌else◌, Bool-cases}
use mathlib.Core.Logic.{inl, inr}

abbrev pub u8 : ℕ → ℕ
u8 n = n % 256

abbrev pub u16 : ℕ → ℕ
u16 n = n % 65536

abbrev pub u32 : ℕ → ℕ
u32 n = n % 4294967296

-- `x - 1` on a DWORD
abbrev pub dec32 : ℕ → ℕ
dec32 n = (n + 4294967295) % 4294967296

-- The mask ~0x80 of 32 bits clears bit 7 of every byte under a bound.
clears_msb : ℕ → Bool
clears_msb zero = true
clears_msb (suc v) =
    let others = clears_msb v in if bit_and v 0xffff_ff7f == v % 128 then others else false

clears_msb-at :
    (bound v : ℕ) → v < bound → clears_msb bound ≡ true → (bit_and v 0xffff_ff7f == v % 128) ≡ true
unfolding clears_msb
clears_msb-at zero v lt h = absurd (omega arith)
clears_msb-at (suc bound) v lt h = elim (Bool-cases (bit_and bound 0xffff_ff7f == bound % 128)) [
  | inl e ↦ elim (Bool-cases (v == bound)) [
    | inl same ↦ let w : v ≡ bound = ==→eq _ _ same in rw w e
    | inr other ↦ clears_msb-at bound v (ground arith) (rw e at h)
  ]
  | inr e ↦ absurd (let no : false ≡ true = rw e at h in cc)
]

byte_masks : clears_msb 256 ≡ true
unfolding clears_msb
byte_masks = refl

-- Clearing bit 7 of a byte leaves its seven low bits.
pub low_seven : (x : ℕ) → x < 256 → bit_and x 0xffff_ff7f ≡ x % 128
low_seven x h = ==→eq _ _ (clears_msb-at 256 x h byte_masks)
