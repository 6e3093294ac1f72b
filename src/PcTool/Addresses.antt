-- ===== src/PcTool/Addresses.antt =====
-- Printed addresses as fields of a message.
use itertk.Base.{ℕ, ◌+◌, ◌/◌, ◌%◌, ◌<◌, ◌≡◌, refl, false, List, ◌∷◌, ◌++◌, arith, ◌==◌, inl, inr}
use itertk.System.Address.{print_byte, print_dotted, sys_ip2str_static, ip_byte}
use itertk.System.Address.Roundtrip.{print_byte-cases}
use itertk.PcTool.Text.{Clear, Clear-append, Token}

pub digit-ne : (d : ℕ) → d < 10 → (b'0' + d == b'|') ≡ false
digit-ne d h = ground arith

print_byte-Clear : (n : ℕ) → n < 256 → Clear b'|' (print_byte n)
print_byte-Clear n h = elim (print_byte-cases n h) [
  | inl c ↦ rw c.text (digit-ne n c.small, tt)
  | inr (inl c) ↦ rw c.text (digit-ne (n / 10) c.high, (digit-ne (n % 10) (omega arith), tt))
  | inr (inr c) ↦ rw c.text (
    digit-ne (n / 100) c.high,
    (digit-ne (n / 10 % 10) (omega arith), (digit-ne (n % 10) (omega arith), tt)),
  )
]

dot-Clear : (n : ℕ) (s : List ℕ) → n < 256 → Clear b'|' s → Clear b'|' (print_byte n ++ (b'.' ∷ s))
dot-Clear n s h g = Clear-append b'|' (print_byte n) (b'.' ∷ s) (print_byte-Clear n h) (refl, g)

-- A text that starts with a printed byte is not empty.
Token-print_byte :
    (n : ℕ) (s : List ℕ) → n < 256 → Clear b'|' (print_byte n ++ s) → Token b'|' (print_byte n ++ s)
Token-print_byte n s h g = elim (print_byte-cases n h) [
  | inl c ↦ record { clear = g; first = b'0' + n; rest = s; shape = rw c.text refl }
  | inr (inl c) ↦ record {
    clear = g;
    first = b'0' + n / 10;
    rest = (b'0' + n % 10) ∷ s;
    shape = rw c.text refl;
  }
  | inr (inr c) ↦ record {
    clear = g;
    first = b'0' + n / 100;
    rest = (b'0' + n / 10 % 10) ∷ (b'0' + n % 10) ∷ s;
    shape = rw c.text refl;
  }
]

pub ip2str-Token : (ip : ℕ) → Token b'|' (sys_ip2str_static ip)
unfolding sys_ip2str_static print_dotted
ip2str-Token ip =
    let part : (i : ℕ) → ip_byte ip i < 256 = λ i. omega arith in
    let d = print_byte (ip_byte ip 3) in
    let cd = print_byte (ip_byte ip 2) ++ (b'.' ∷ d) in
    let bcd = print_byte (ip_byte ip 1) ++ (b'.' ∷ cd) in
    Token-print_byte (ip_byte ip 0) (b'.' ∷ bcd) (part 0) (
      dot-Clear (ip_byte ip 0) bcd (part 0) (
        dot-Clear (ip_byte ip 1) cd (part 1)
          (dot-Clear (ip_byte ip 2) d (part 2) (print_byte-Clear (ip_byte ip 3) (part 3)))))
