-- ===== src/Client/Dns/Dotted.antt =====
-- Which strings `ip_check` takes for an address.
use itertk.Base.{
  ℕ, ◌+◌, ◌-◌, ◌*◌, ◌/◌, ◌%◌, ◌<◌, ◌≡◌, refl, sym, ap, ◌∙◌, true, false, List, [], ◌∷◌, ◌++◌, arith,
  ltb, ◌==◌, inl, inr, append-nil,
}
use itertk.System.Address.{is_digit, print_byte, print_dotted}
use itertk.System.Address.Roundtrip.{print_byte-cases}
use itertk.Client.Dns.Lookup.{IpCheck, ip_loop, ip_check}

ip_digit :
    (e v q t : ℕ) (s : List ℕ) (d dots digits since : ℕ)
    → e < 10
    → v ≡ 10 * d + e
    → v < 256
    → q ≡ digits + 1
    → t ≡ since + 1
    → ip_loop ((b'0' + e) ∷ s) d dots digits since ≡ ip_loop s v dots q t
unfolding ip_loop
ip_digit e v q t s d dots digits since h ev lt eq et =
    let f : b'0' + e - b'0' ≡ e = omega arith in
    let yes_digit : is_digit (b'0' + e) ≡ true = ground arith in
    let fits : ltb 255 v ≡ false = ground arith in
    rw (yes_digit, f, sym ev, fits, sym eq, sym et) refl

-- After a byte's digits the loop holds the byte and has counted them.
record Reads (n : ℕ) (s : List ℕ) (dots digits : ℕ) : Type 0 where
  count : ℕ
  some_digit : 0 < count
  read : ip_loop (print_byte n ++ s) 0 dots digits 0 ≡ ip_loop s n dots (digits + count) count

read_byte : (n : ℕ) (s : List ℕ) (dots digits : ℕ) → n < 256 → Reads n s dots digits
read_byte n s dots digits h = elim (print_byte-cases n h) [
  | inl c ↦ record {
    count = 1;
    some_digit = omega arith;
    read =
        rw c.text (ip_digit n n (digits + 1) 1 s 0 dots digits 0 c.small (omega arith) h refl refl);
  }
  | inr (inl c) ↦ record {
    count = 2;
    some_digit = omega arith;
    read = rw c.text (
        ip_digit (n / 10) (n / 10) (digits + 1) 1 ((b'0' + n % 10) ∷ s) 0 dots digits 0 c.high
          (omega arith) (omega (arith, h)) refl refl
        ∙ ip_digit (n % 10) n (digits + 2) 2 s (n / 10) dots (digits + 1) 1 (omega arith)
            (omega arith) h (omega arith) refl);
  }
  | inr (inr c) ↦ record {
    count = 3;
    some_digit = omega arith;
    read = rw c.text (
        ip_digit (n / 100) (n / 100) (digits + 1) 1 ((b'0' + n / 10 % 10) ∷ (b'0' + n % 10) ∷ s) 0
          dots digits 0 c.high (omega arith) (omega (arith, h)) refl refl
        ∙ ip_digit (n / 10 % 10) (n / 10) (digits + 2) 2 ((b'0' + n % 10) ∷ s) (n / 100) dots
            (digits + 1) 1 (omega arith) (omega arith) (omega (arith, h)) (omega arith) refl
        ∙ ip_digit (n % 10) n (digits + 3) 3 s (n / 10) dots (digits + 2) 2 (omega arith)
            (omega arith) h (omega arith) refl);
  }
]

-- A dot after at least one digit, with as many digits as dots or more before it.
ip_dot :
    (s : List ℕ) (d dots digits since : ℕ)
    → dots < digits
    → 0 < since
    → ip_loop (b'.' ∷ s) d dots digits since ≡ ip_loop s 0 (dots + 1) digits 0
unfolding ip_loop
ip_dot s d dots digits since h z =
    let enough : ltb digits (dots + 1) ≡ false = ground arith in
    let used : (since == 0) ≡ false = ground arith in rw (enough, used) refl

-- Every printed address passes ip_check.
pub ip_check-print_dotted :
    (a b c d : ℕ)
    → a < 256
    → b < 256
    → c < 256
    → d < 256
    → ip_check (print_dotted a b c d) ≡ IpCheck.is_ip
unfolding ip_check ip_loop print_dotted
ip_check-print_dotted a b c d ha hb hc hd =
    let t3 = print_byte d in
    let t2 = print_byte c ++ (b'.' ∷ t3) in
    let t1 = print_byte b ++ (b'.' ∷ t2) in
    let ra = read_byte a (b'.' ∷ t1) 0 0 ha in
    let rb = read_byte b (b'.' ∷ t2) 1 (0 + ra.count) hb in
    let rc = read_byte c (b'.' ∷ t3) 2 (0 + ra.count + rb.count) hc in
    let rd = read_byte d [] 3 (0 + ra.count + rb.count + rc.count) hd in
    let used : (rd.count == 0) ≡ false = ground (arith, rd.some_digit) in
    ra.read
    ∙ ip_dot t1 a 0 (0 + ra.count) ra.count (omega (arith, ra.some_digit)) ra.some_digit
    ∙ rb.read
    ∙ ip_dot t2 b 1 (0 + ra.count + rb.count) rb.count (omega (arith, ra.some_digit, rb.some_digit))
        rb.some_digit
    ∙ rc.read
    ∙ ip_dot t3 c 2 (0 + ra.count + rb.count + rc.count) rc.count
        (omega (arith, ra.some_digit, rb.some_digit, rc.some_digit)) rc.some_digit
    ∙ ap (λ l. ip_loop l 0 3 (0 + ra.count + rb.count + rc.count) 0) (sym (append-nil t3))
    ∙ rd.read
    ∙ rw used refl
