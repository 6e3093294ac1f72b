-- ===== src/PcTool/Port.antt =====
-- The port of the server, printed and read back.
use itertk.Base.{
  ℕ, ◌+◌, ◌*◌, ◌/◌, ◌%◌, ◌<◌, ◌≡◌, refl, ap, ◌∙◌, List, [], ◌∷◌, arith, ltb, inl, inr, Bool-cases,
  u16,
}
use itertk.System.Address.{digits_from}
use itertk.System.Address.Roundtrip.{digit-step, digits_from_stop}
use itertk.PcTool.{atoi_port}
use itertk.PcTool.Report.{print_port}
use itertk.PcTool.Text.{Clear, Token}
use itertk.PcTool.Addresses.{digit-ne}

atoi_port-digit :
    (d : ℕ) (s : List ℕ)
    → d < 10
    → atoi_port ((b'0' + d) ∷ s) ≡ u16 (digits_from 0 ((b'0' + d) ∷ s))
unfolding atoi_port
atoi_port-digit d s h = ground arith

-- The digits of `print_port` behind the first one.
next_digit :
    (v n m : ℕ) (s : List ℕ)
    → n < 10
    → v * 10 + n ≡ m
    → digits_from v ((b'0' + n) ∷ s) ≡ digits_from m s
next_digit v n m s h e = digit-step n v s h ∙ ap (λ k. digits_from k s) e

-- A printed port is read back.
pub atoi_port-print_port : (n : ℕ) → n < 65536 → atoi_port (print_port n) ≡ n
unfolding print_port
atoi_port-print_port n h =
    let d1 = (b'0' + n % 10) ∷ [] in
    let d2 = (b'0' + n / 10 % 10) ∷ d1 in
    let d3 = (b'0' + n / 100 % 10) ∷ d2 in
    let d4 = (b'0' + n / 1000 % 10) ∷ d3 in
    let last : (v : ℕ) → v * 10 + n % 10 ≡ n → digits_from v d1 ≡ n =
      λ v e. next_digit v (n % 10) n [] (omega arith) e ∙ digits_from_stop n [] refl in
    let second : (v : ℕ) → v * 10 + n / 10 % 10 ≡ n / 10 → digits_from v d2 ≡ n =
      λ v e. next_digit v (n / 10 % 10) (n / 10) d1 (omega arith) e ∙ last (n / 10) (omega arith) in
    let third : (v : ℕ) → v * 10 + n / 100 % 10 ≡ n / 100 → digits_from v d3 ≡ n = λ v e.
      next_digit v (n / 100 % 10) (n / 100) d2 (omega arith) e ∙ second (n / 100) (omega arith) in
    let fourth : (v : ℕ) → v * 10 + n / 1000 % 10 ≡ n / 1000 → digits_from v d4 ≡ n = λ v e.
      next_digit v (n / 1000 % 10) (n / 1000) d3 (omega arith) e ∙ third (n / 1000) (omega arith) in
    let fits : u16 n ≡ n = omega (arith, h) in
    let whole : (s : List ℕ) → digits_from 0 s ≡ n → u16 (digits_from 0 s) ≡ n =
      λ s e. ap u16 e ∙ fits in
    elim (Bool-cases (ltb n 10)) [
      | inl a ↦ rw a (atoi_port-digit (n % 10) [] (omega arith) ∙ whole d1 (last 0 (ground arith)))
      | inr a ↦ elim (Bool-cases (ltb n 100)) [
        | inl b ↦
            rw (a, b)
              (atoi_port-digit (n / 10 % 10) d1 (omega arith) ∙ whole d2 (second 0 (ground arith)))
        | inr b ↦ elim (Bool-cases (ltb n 1000)) [
          | inl c ↦
              rw (a, b, c)
                (atoi_port-digit (n / 100 % 10) d2 (omega arith)
                  ∙ whole d3 (third 0 (ground arith)))
          | inr c ↦ elim (Bool-cases (ltb n 10000)) [
            | inl d ↦
                rw (a, b, c, d)
                  (atoi_port-digit (n / 1000 % 10) d3 (omega arith)
                    ∙ whole d4 (fourth 0 (ground arith)))
            | inr d ↦
                rw (a, b, c, d)
                  (atoi_port-digit (n / 10000) d4 (omega arith)
                    ∙ whole ((b'0' + n / 10000) ∷ d4) (
                        next_digit 0 (n / 10000) (n / 10000) d4 (omega arith) (omega arith)
                        ∙ fourth (n / 10000) (omega arith)))
          ]
        ]
      ]
    ]

tail-Clear : (n : ℕ) (s : List ℕ) → n < 10 → Clear b'|' s → Clear b'|' ((b'0' + n) ∷ s)
tail-Clear n s h g = (digit-ne n h, g)

Token-digit : (n : ℕ) (s : List ℕ) → n < 10 → Clear b'|' s → Token b'|' ((b'0' + n) ∷ s)
Token-digit n s h g = record {
  clear = tail-Clear n s h g;
  first = b'0' + n;
  rest = s;
  shape = refl;
}

pub print_port-Token : (n : ℕ) → n < 65536 → Token b'|' (print_port n)
unfolding print_port
print_port-Token n h =
    let d1 = (b'0' + n % 10) ∷ [] in
    let d2 = (b'0' + n / 10 % 10) ∷ d1 in
    let d3 = (b'0' + n / 100 % 10) ∷ d2 in
    let d4 = (b'0' + n / 1000 % 10) ∷ d3 in
    let c1 : Clear b'|' d1 = tail-Clear (n % 10) [] (omega arith) tt in
    let c2 : Clear b'|' d2 = tail-Clear (n / 10 % 10) d1 (omega arith) c1 in
    let c3 : Clear b'|' d3 = tail-Clear (n / 100 % 10) d2 (omega arith) c2 in
    let c4 : Clear b'|' d4 = tail-Clear (n / 1000 % 10) d3 (omega arith) c3 in
    elim (Bool-cases (ltb n 10)) [
      | inl a ↦ rw a (Token-digit (n % 10) [] (omega arith) tt)
      | inr a ↦ elim (Bool-cases (ltb n 100)) [
        | inl b ↦ rw (a, b) (Token-digit (n / 10 % 10) d1 (omega arith) c1)
        | inr b ↦ elim (Bool-cases (ltb n 1000)) [
          | inl c ↦ rw (a, b, c) (Token-digit (n / 100 % 10) d2 (omega arith) c2)
          | inr c ↦ elim (Bool-cases (ltb n 10000)) [
            | inl d ↦ rw (a, b, c, d) (Token-digit (n / 1000 % 10) d3 (omega arith) c3)
            | inr d ↦ rw (a, b, c, d) (Token-digit (n / 10000) d4 (omega arith) c4)
          ]
        ]
      ]
    ]
