-- ===== src/Pages/Texts.antt =====
-- Printed addresses fit their fields and are one line.
use itertk.Base.{ℕ, ◌+◌, ◌≤◌, ◌<◌, List, [], ◌∷◌, ◌++◌, arith, length, length-append, inl, inr}
use itertk.System.Address.{print_byte, print_dotted, sys_ip2str_static, ip_byte}
use itertk.System.Address.Roundtrip.{print_byte-cases}
use itertk.Pages.Controls.{OneLine}

pub OneLine-append : (s t : List ℕ) → OneLine s → OneLine t → OneLine (s ++ t)
OneLine-append [] t h g = g
OneLine-append (c ∷ s) t h g = (h.0, OneLine-append s t h.1 g)

-- A line of at most so many characters.
pub record Line (k : ℕ) (s : List ℕ) : Type 0 where
  pub plain : OneLine s
  pub short : length s ≤ k

byte-Line : (n : ℕ) → n < 256 → Line 3 (print_byte n)
byte-Line n h = elim (print_byte-cases n h) [
  | inl c ↦ rw c.text (record { plain = (omega arith, tt); short = omega arith })
  | inr (inl c) ↦
      rw c.text (record { plain = (omega arith, (omega arith, tt)); short = omega arith })
  | inr (inr c) ↦
      rw c.text
        (record { plain = (omega arith, (omega arith, (omega arith, tt))); short = omega arith })
]

dot-Line : (n k : ℕ) (s : List ℕ) → n < 256 → Line k s → Line (4 + k) (print_byte n ++ (b'.' ∷ s))
dot-Line n k s h l =
    let b = byte-Line n h in
    record {
      plain = OneLine-append (print_byte n) (b'.' ∷ s) b.plain (omega arith, l.plain);
      short = omega (arith, b.short, l.short, length-append (print_byte n) (b'.' ∷ s));
    }

pub ip2str-Line : (ip : ℕ) → Line 15 (sys_ip2str_static ip)
unfolding sys_ip2str_static print_dotted
ip2str-Line ip =
    let part : (i : ℕ) → ip_byte ip i < 256 = λ i. omega arith in
    let d = print_byte (ip_byte ip 3) in
    let cd = print_byte (ip_byte ip 2) ++ (b'.' ∷ d) in
    let bcd = print_byte (ip_byte ip 1) ++ (b'.' ∷ cd) in
    dot-Line (ip_byte ip 0) 11 bcd (part 0) (
      dot-Line (ip_byte ip 1) 7 cd (part 1)
        (dot-Line (ip_byte ip 2) 3 d (part 2) (byte-Line (ip_byte ip 3) (part 3))))
