-- ===== src/System/Address/Roundtrip.antt =====
-- Reading back a printed address.
use itertk.Base.{
  ℕ, ◌+◌, ◌-◌, ◌*◌, ◌/◌, ◌%◌, ◌^◌, ◌<◌, ◌≡◌, ◌⊎◌, refl, sym, ◌∙◌, ap, Bool, true, false, inl, inr,
  List, [], ◌∷◌, ◌++◌, append-nil, arith, ltb, ◌==◌, if◌then◌else◌, u8, u32, Bool-cases,
}
use itertk.System.Address.{
  is_digit, digits_from, atoi_sign, atoi_byte, str2ip_loop, sys_str2ip, print_byte, print_dotted,
  sys_ip2str_static, ip_byte,
}

-- The text that follows a number: nothing, or something that starts with no digit.
abbrev pub ends_number : List ℕ → Bool
ends_number [] = true
ends_number (c ∷ s) = if is_digit c then false else true

pub digits_from_stop : (v : ℕ) (s : List ℕ) → ends_number s ≡ true → digits_from v s ≡ v
unfolding digits_from
digits_from_stop v [] h = refl
digits_from_stop v (c ∷ s) h = ground arith

pub digit-step :
    (d v : ℕ) (s : List ℕ) → d < 10 → digits_from v ((b'0' + d) ∷ s) ≡ digits_from (v * 10 + d) s
unfolding digits_from
digit-step d v s h = let e : b'0' + d - b'0' ≡ d = omega arith in rw e (ground arith)

-- A string that starts with a digit has no white space or sign before its number.
atoi-digit :
    (d : ℕ) (s : List ℕ) → d < 10 → atoi_byte ((b'0' + d) ∷ s) ≡ u8 (digits_from 0 ((b'0' + d) ∷ s))
unfolding atoi_byte atoi_sign
atoi-digit d s h = ground arith

-- The rest of the loop skips the digits of a number.
skip-digit :
    (d : ℕ) (s : List ℕ) (j ip : ℕ)
    → d < 10
    → str2ip_loop ((b'0' + d) ∷ s) j ip ≡ str2ip_loop s j ip
unfolding str2ip_loop
skip-digit d s j ip h = let e : (b'0' + d == b'.') ≡ false = ground arith in rw e

-- The digits of a byte: one, two or three of them, and the number that they make up.
pub record Digits1 (n : ℕ) : Type 0 where
  pub small : n < 10
  pub text : print_byte n ≡ (b'0' + n) ∷ []

pub record Digits2 (n : ℕ) : Type 0 where
  pub high : n / 10 < 10
  pub text : print_byte n ≡ (b'0' + n / 10) ∷ (b'0' + n % 10) ∷ []

pub record Digits3 (n : ℕ) : Type 0 where
  pub high : n / 100 < 10
  pub text : print_byte n ≡ (b'0' + n / 100) ∷ (b'0' + n / 10 % 10) ∷ (b'0' + n % 10) ∷ []

pub print_byte-cases : (n : ℕ) → n < 256 → Digits1 n ⊎ (Digits2 n ⊎ Digits3 n)
unfolding print_byte
print_byte-cases n h = elim (Bool-cases (ltb n 10)) [
  | inl a ↦ inl (record { small = ground arith; text = rw a })
  | inr a ↦ inr (elim (Bool-cases (ltb n 100)) [
    | inl b ↦ inl (record { high = ground arith; text = rw (a, b) })
    | inr b ↦ inr (record { high = omega arith; text = rw (a, b) })
  ])
]

-- Reading back a printed byte.
pub atoi_byte-print_byte :
    (n : ℕ) (s : List ℕ) → n < 256 → atoi_byte (print_byte n ++ s) ≡ u8 (digits_from n s)
atoi_byte-print_byte n s h = elim (print_byte-cases n h) [
  | inl c ↦ rw c.text (
      atoi-digit n s c.small
      ∙ ap u8 (digit-step n 0 s c.small)
      ∙ ap (λ k. u8 (digits_from k s)) (omega arith))
  | inr (inl c) ↦ rw c.text (
      atoi-digit (n / 10) ((b'0' + n % 10) ∷ s) c.high
      ∙ ap u8 (digit-step (n / 10) 0 ((b'0' + n % 10) ∷ s) c.high)
      ∙ ap u8 (digit-step (n % 10) (0 * 10 + n / 10) s (omega arith))
      ∙ ap (λ k. u8 (digits_from k s)) (omega arith))
  | inr (inr c) ↦ rw c.text (
      atoi-digit (n / 100) ((b'0' + n / 10 % 10) ∷ (b'0' + n % 10) ∷ s) c.high
      ∙ ap u8 (digit-step (n / 100) 0 ((b'0' + n / 10 % 10) ∷ (b'0' + n % 10) ∷ s) c.high)
      ∙ ap u8 (digit-step (n / 10 % 10) (0 * 10 + n / 100) ((b'0' + n % 10) ∷ s) (omega arith))
      ∙ ap u8 (digit-step (n % 10) ((0 * 10 + n / 100) * 10 + n / 10 % 10) s (omega arith))
      ∙ ap (λ k. u8 (digits_from k s)) (omega arith))
]

pub skip-print_byte :
    (n : ℕ) (s : List ℕ) (j ip : ℕ)
    → n < 256
    → str2ip_loop (print_byte n ++ s) j ip ≡ str2ip_loop s j ip
skip-print_byte n s j ip h = elim (print_byte-cases n h) [
  | inl c ↦ rw c.text (skip-digit n s j ip c.small)
  | inr (inl c) ↦ rw c.text (
      skip-digit (n / 10) ((b'0' + n % 10) ∷ s) j ip c.high
      ∙ skip-digit (n % 10) s j ip (omega arith))
  | inr (inr c) ↦ rw c.text (
      skip-digit (n / 100) ((b'0' + n / 10 % 10) ∷ (b'0' + n % 10) ∷ s) j ip c.high
      ∙ skip-digit (n / 10 % 10) ((b'0' + n % 10) ∷ s) j ip (omega arith)
      ∙ skip-digit (n % 10) s j ip (omega arith))
]

-- A dot before a printed byte adds that byte at its place.
dot-byte :
    (n : ℕ) (s : List ℕ) (j ip : ℕ)
    → n < 256
    → ends_number s ≡ true
    → str2ip_loop (b'.' ∷ (print_byte n ++ s)) j ip
      ≡ str2ip_loop s (j + 1) (u32 (ip + u32 (n * 2 ^ (8 * j))))
unfolding str2ip_loop
dot-byte n s j ip h e =
    skip-print_byte n s (j + 1) (u32 (ip + u32 (atoi_byte (print_byte n ++ s) * 2 ^ (8 * j)))) h
    ∙ ap (λ v. str2ip_loop s (j + 1) (u32 (ip + u32 (v * 2 ^ (8 * j)))))
        (atoi_byte-print_byte n s h ∙ ap u8 (digits_from_stop n s e) ∙ omega arith)

dot-last :
    (n j ip : ℕ)
    → n < 256
    → str2ip_loop (b'.' ∷ print_byte n) j ip ≡ u32 (ip + u32 (n * 2 ^ (8 * j)))
unfolding str2ip_loop
dot-last n j ip h =
    ap (λ t. str2ip_loop (b'.' ∷ t) j ip) (sym (append-nil (print_byte n)))
    ∙ dot-byte n [] j ip h refl

-- A dotted quad is read as the word whose byte `i` is its part `i`.
pub str2ip-print_dotted :
    (a b c d : ℕ)
    → a < 256
    → b < 256
    → c < 256
    → d < 256
    → sys_str2ip (print_dotted a b c d) ≡ a + b * 256 + c * 65536 + d * 16777216
unfolding sys_str2ip print_dotted
str2ip-print_dotted a b c d ha hb hc hd =
    let r1 = b'.' ∷ (print_byte b ++ (b'.' ∷ (print_byte c ++ (b'.' ∷ print_byte d)))) in
    let r2 = b'.' ∷ (print_byte c ++ (b'.' ∷ print_byte d)) in
    let r3 = b'.' ∷ print_byte d in
    skip-print_byte a r1 1 (atoi_byte (print_byte a ++ r1)) ha
    ∙ ap (str2ip_loop r1 1) (atoi_byte-print_byte a r1 ha ∙ ap u8 (digits_from_stop a r1 refl))
    ∙ dot-byte b r2 1 (u8 a) hb refl
    ∙ dot-byte c r3 2 (u32 (u8 a + u32 (b * 2 ^ 8))) hc refl
    ∙ dot-last d 3 (u32 (u32 (u8 a + u32 (b * 2 ^ 8)) + u32 (c * 2 ^ 16))) hd
    ∙ omega arith

-- Every address that is printed is read back as itself.
pub str2ip-ip2str : (ip : ℕ) → ip < 2 ^ 32 → sys_str2ip (sys_ip2str_static ip) ≡ ip
unfolding sys_ip2str_static
str2ip-ip2str ip h =
    str2ip-print_dotted (ip_byte ip 0) (ip_byte ip 1) (ip_byte ip 2) (ip_byte ip 3) (omega arith)
      (omega arith) (omega arith) (omega arith)
    ∙ omega arith
