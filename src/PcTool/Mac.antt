-- ===== src/PcTool/Mac.antt =====
-- The hardware address of the settings, printed and read back.
use itertk.Base.{
  ℕ, ◌+◌, ◌*◌, ◌/◌, ◌%◌, ◌<◌, ◌≡◌, ◌⊎◌, refl, sym, ap, ◌∙◌, false, some, List, [], ◌∷◌, ◌++◌, arith,
  ◌==◌, inl, inr, length, set, set?, set?-some, u8, append_assoc, length-append,
}
use itertk.PcTool.{hex_value, str2hex_loop, str2hex, store_mac, read_mac}
use itertk.PcTool.Report.{join, hex_digit, print_hex, print_bytes, print_mac}
use itertk.PcTool.Text.{Clear, Clear-append, Token, Tokens, strtok-join}

hex_value-hex_digit : (d : ℕ) → d < 16 → hex_value (hex_digit d) ≡ some d
unfolding hex_value
hex_value-hex_digit d h = ground arith

pub str2hex-print_hex : (n : ℕ) → n < 256 → str2hex (print_hex n) ≡ some n
unfolding str2hex str2hex_loop
str2hex-print_hex n h =
    rw (hex_value-hex_digit (n / 16) (omega arith), hex_value-hex_digit (n % 16) (omega arith))
      (ap some (omega arith))

hex_digit-ne : (sep d : ℕ) → (sep ≡ b'|') ⊎ (sep ≡ b':') → d < 16 → (hex_digit d == sep) ≡ false
hex_digit-ne sep d (inl e) h = ground arith
hex_digit-ne sep d (inr e) h = ground arith

pub print_hex-Token : (sep n : ℕ) → (sep ≡ b'|') ⊎ (sep ≡ b':') → n < 256 → Token sep (print_hex n)
print_hex-Token sep n e h = record {
  clear =
      (hex_digit-ne sep (n / 16) e (omega arith), (hex_digit-ne sep (n % 16) e (omega arith), tt));
  first = hex_digit (n / 16);
  rest = hex_digit (n % 16) ∷ [];
  shape = refl;
}

abbrev pub AllBytes : List ℕ → Type 0
AllBytes [] = Unit
AllBytes (b ∷ bs) = (b < 256) × AllBytes bs

pub print_bytes-Tokens : (bs : List ℕ) → AllBytes bs → Tokens b':' (print_bytes bs)
print_bytes-Tokens [] h = tt
print_bytes-Tokens (b ∷ bs) h = (print_hex-Token b':' b (inr refl) h.0, print_bytes-Tokens bs h.1)

set-part :
    (pre : List ℕ) (o : ℕ) (old : List ℕ) (v : ℕ)
    → set (pre ++ (o ∷ old)) (length pre) v ≡ pre ++ (v ∷ old)
set-part [] o old v = refl
set-part (p ∷ pre) o old v = ap (λ l. p ∷ l) (set-part pre o old v)

set?-part :
    (pre : List ℕ) (o : ℕ) (old : List ℕ) (v : ℕ)
    → set? (pre ++ (o ∷ old)) (length pre) v ≡ some (pre ++ (v ∷ old))
set?-part pre o old v =
    set?-some (pre ++ (o ∷ old)) (length pre) v (omega (arith, length-append pre (o ∷ old)))
    ∙ ap some (set-part pre o old v)

store_mac-print_bytes :
    (bs pre old : List ℕ)
    → AllBytes bs
    → length old ≡ length bs
    → store_mac (print_bytes bs) (length pre) (pre ++ old) ≡ some (pre ++ bs)
unfolding store_mac
store_mac-print_bytes [] pre [] h e = refl
store_mac-print_bytes [] pre (o ∷ old) h e = absurd (omega (arith, e))
store_mac-print_bytes (b ∷ bs) pre [] h e = absurd (omega (arith, e))
store_mac-print_bytes (b ∷ bs) pre (o ∷ old) h e =
    let low : u8 b ≡ b = omega (arith, h.0) in
    let len : length pre + 1 ≡ length (pre ++ (b ∷ [])) =
      omega (arith, length-append pre (b ∷ [])) in
    rw
      (
        str2hex-print_hex b h.0,
        low,
        set?-part pre o old b,
        len,
        sym (append_assoc pre (b ∷ []) old),
      )
      (store_mac-print_bytes bs (pre ++ (b ∷ [])) old h.1 (omega (arith, e))
        ∙ ap some (append_assoc pre (b ∷ []) bs))

-- A printed hardware address is read back.
pub read_mac-print_mac :
    (b : ℕ) (bs old : List ℕ)
    → AllBytes (b ∷ bs)
    → length old ≡ length (b ∷ bs)
    → read_mac (print_mac (b ∷ bs)) old ≡ some (b ∷ bs)
unfolding read_mac print_mac
read_mac-print_mac b bs old h e =
    rw (strtok-join b':' (print_bytes (b ∷ bs)) (print_bytes-Tokens (b ∷ bs) h), read_mac)
      (store_mac-print_bytes (b ∷ bs) [] old h e)

bytes-Clear : (bs : List ℕ) → AllBytes bs → Clear b'|' (join b':' (print_bytes bs))
bytes-Clear [] h = tt
bytes-Clear (b ∷ []) h = (print_hex-Token b'|' b (inl refl) h.0).clear
bytes-Clear (a ∷ b ∷ bs) h =
    Clear-append b'|' (print_hex a) (b':' ∷ join b':' (print_bytes (b ∷ bs)))
      (print_hex-Token b'|' a (inl refl) h.0).clear (refl, bytes-Clear (b ∷ bs) h.1)

pub print_mac-Token : (b : ℕ) (bs : List ℕ) → AllBytes (b ∷ bs) → Token b'|' (print_mac (b ∷ bs))
unfolding print_mac
print_mac-Token b [] h = print_hex-Token b'|' b (inl refl) h.0
print_mac-Token a (b ∷ bs) h = record {
  clear = bytes-Clear (a ∷ b ∷ bs) h;
  first = hex_digit (a / 16);
  rest = hex_digit (a % 16) ∷ b':' ∷ join b':' (print_bytes (b ∷ bs));
  shape = refl;
}

pub length-print_mac : (b : ℕ) (bs : List ℕ) → length (print_mac (b ∷ bs)) + 1 ≡ 3 * length (b ∷ bs)
unfolding print_mac
length-print_mac b [] = refl
length-print_mac a (b ∷ bs) = omega (arith, length-print_mac b bs)
