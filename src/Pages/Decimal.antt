-- ===== src/Pages/Decimal.antt =====
-- `%d` of a `DWORD` in a field, and how it is read back.
use itertk.Base.{
  ℕ, zero, suc, ◌+◌, ◌-◌, ◌*◌, ◌/◌, ◌%◌, ◌^◌, ◌≤◌, ◌<◌, ◌≡◌, refl, sym, ap, ◌∙◌, true, List, [],
  ◌∷◌, ◌++◌, if◌then◌else◌, arith, ltb, length, append_assoc, append-nil, length-append, Bool-cases,
  inl, inr, u32,
}
use itertk.System.Address.{digits_from}
use itertk.System.Address.Roundtrip.{digit-step, digits_from_stop}
use itertk.Pages.{atoi_dword}
use itertk.Pages.Controls.{OneLine}
use itertk.Pages.Texts.{OneLine-append}

-- the digits of a number, at most so many
unfoldable pub print_digits : ℕ → ℕ → List ℕ
print_digits zero n = []
print_digits (suc k) n =
    let more = print_digits k (n / 10) ++ ((b'0' + n % 10) ∷ []) in
    if ltb n 10 then (b'0' + n) ∷ [] else more

-- A word from 2^31 on is printed as a negative number.
unfoldable pub print_int : ℕ → List ℕ
unfolding print_digits
print_int n = if ltb n (2 ^ 31) then print_digits 10 n else b'-' ∷ print_digits 10 (2 ^ 32 - n)

-- 10 ^ k
abbrev power_10 : ℕ → ℕ
power_10 zero = 1
power_10 (suc k) = 10 * power_10 k

digits_from-print_digits :
    (k n : ℕ) (s : List ℕ)
    → n < power_10 k
    → digits_from 0 (print_digits k n ++ s) ≡ digits_from n s
unfolding print_digits
digits_from-print_digits zero n s h = ap (λ v. digits_from v s) (omega arith)
digits_from-print_digits (suc k) n s h = elim (Bool-cases (ltb n 10)) [
  | inl small ↦ rw small (digit-step n 0 s (ground arith) ∙ ap (λ v. digits_from v s) (omega arith))
  | inr large ↦
      rw (large, append_assoc (print_digits k (n / 10)) ((b'0' + n % 10) ∷ []) s)
        (digits_from-print_digits k (n / 10) ((b'0' + n % 10) ∷ s) (omega (arith, h))
          ∙ digit-step (n % 10) (n / 10) s (omega arith)
          ∙ ap (λ v. digits_from v s) (omega arith))
]

-- Printed digits: at least one, at most so many, and no line break.
record Digits (k : ℕ) (s : List ℕ) : Type 0 where
  first : ℕ
  rest : List ℕ
  shape : s ≡ (b'0' + first) ∷ rest
  digit : first < 10
  plain : OneLine s
  short : length s ≤ k

one_digit : (k n : ℕ) → n < 10 → Digits (suc k) ((b'0' + n) ∷ [])
one_digit k n h = record {
  first = n;
  rest = [];
  shape = refl;
  digit = h;
  plain = (omega arith, tt);
  short = omega arith;
}

print_digits-Digits : (k n : ℕ) → n < power_10 (suc k) → Digits (suc k) (print_digits (suc k) n)
unfolding print_digits
print_digits-Digits zero n h =
    let small : ltb n 10 ≡ true = ground arith in rw small (one_digit 0 n (omega arith))
print_digits-Digits (suc k) n h = elim (Bool-cases (ltb n 10)) [
  | inl small ↦ rw small (one_digit (suc k) n (ground arith))
  | inr large ↦
      let d = print_digits-Digits k (n / 10) (omega (arith, h)) in
      let more = print_digits (suc k) (n / 10) in
      let last : List ℕ = (b'0' + n % 10) ∷ [] in
      rw large (record {
        first = d.first;
        rest = d.rest ++ last;
        shape = ap (λ l. l ++ last) d.shape;
        digit = d.digit;
        plain = OneLine-append more last d.plain (omega arith, tt);
        short = omega (arith, d.short, length-append more last);
      })
]

atoi_dword-digit :
    (d : ℕ) (s : List ℕ)
    → d < 10
    → atoi_dword ((b'0' + d) ∷ s) ≡ u32 (digits_from 0 ((b'0' + d) ∷ s))
unfolding atoi_dword
atoi_dword-digit d s h = ground arith

-- What a field of a number shows: a short line that is read back as the number.
pub record Shown (n : ℕ) : Type 0 where
  pub plain : OneLine (print_int n)
  pub short : length (print_int n) ≤ 10
  pub back : atoi_dword (print_int n) ≡ n

pub print_int-Shown : (n : ℕ) → n < 2 ^ 31 → Shown n
unfolding print_int
print_int-Shown n h =
    let positive : ltb n (2 ^ 31) ≡ true = ground arith in
    let d = print_digits-Digits 9 n (omega (arith, h)) in
    let text = print_digits 10 n in
    let whole : digits_from 0 text ≡ n =
      ap (digits_from 0) (sym (append-nil text))
      ∙ digits_from-print_digits 10 n [] (omega (arith, h))
      ∙ digits_from_stop n [] refl in
    record {
      plain = rw positive d.plain;
      short = rw positive d.short;
      back = rw positive (
          ap atoi_dword d.shape
          ∙ atoi_dword-digit d.first d.rest d.digit
          ∙ ap (λ l. u32 (digits_from 0 l)) (sym d.shape)
          ∙ ap u32 whole
          ∙ omega (arith, h));
    }
