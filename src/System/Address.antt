-- ===== src/System/Address.antt =====
-- `sys_str2ip` and `sys_ip2str_static` of nc600-2.0/src/system.c.
pub mod Roundtrip
use itertk.Base.{
  ℕ, zero, suc, ◌+◌, ◌-◌, ◌*◌, ◌/◌, ◌%◌, ◌^◌, ◌≤◌, ◌<◌, ◌≡◌, refl, Bool, true, false, ◌&&◌, ◌||◌,
  List, [], ◌∷◌, ◌++◌, append_assoc, arith, ltb, leb, ◌==◌, if◌then◌else◌, u8, u32, codes,
}

abbrev pub is_digit : ℕ → Bool
is_digit c = leb b'0' c && leb c b'9'

abbrev pub is_space : ℕ → Bool
is_space c = c == 32 || leb 9 c && leb c 13

-- The digits of `atoi`: the number read so far, up to the first other character.
unfoldable pub digits_from : ℕ → List ℕ → ℕ
digits_from v [] = v
digits_from v (c ∷ s) =
    let rest = digits_from (v * 10 + (c - b'0')) s in if is_digit c then rest else v

-- `(BYTE)atoi(s)`: white space, a sign, digits.
atoi_sign : List ℕ → ℕ
atoi_sign [] = 0
atoi_sign (c ∷ s) =
    if c == b'-'
    then (256 - u8 (digits_from 0 s)) % 256
    else if c == b'+'
    then u8 (digits_from 0 s)
    else u8 (digits_from 0 (c ∷ s))

pub atoi_byte : List ℕ → ℕ
unfolding atoi_sign digits_from
atoi_byte [] = 0
atoi_byte (c ∷ s) = let rest = atoi_byte s in if is_space c then rest else atoi_sign (c ∷ s)

-- The loop of `sys_str2ip` over the rest of the string, with `j` dots read. A shift by 32 or more is
-- undefined in C; on the ARM target it gives 0, which `% 2 ^ 32` gives too.
pub str2ip_loop : List ℕ → ℕ → ℕ → ℕ
str2ip_loop [] j ip = ip
str2ip_loop (c ∷ p) j ip =
    str2ip_loop p (if c == b'.' then j + 1 else j)
      (if c == b'.' then u32 (ip + u32 (atoi_byte p * 2 ^ (8 * j))) else ip)

unfoldable pub sys_str2ip : List ℕ → ℕ
unfolding str2ip_loop atoi_byte
sys_str2ip str = str2ip_loop str 1 (atoi_byte str)

-- `%d` of a byte
unfoldable pub print_byte : ℕ → List ℕ
print_byte n =
    if ltb n 10
    then (b'0' + n) ∷ []
    else if ltb n 100
    then (b'0' + n / 10) ∷ (b'0' + n % 10) ∷ []
    else (b'0' + n / 100) ∷ (b'0' + n / 10 % 10) ∷ (b'0' + n % 10) ∷ []

-- `cIp[i] = (iIp >> (i * 8)) & 0xff`
abbrev pub ip_byte : ℕ → ℕ → ℕ
ip_byte ip i = ip / 2 ^ (8 * i) % 256

-- `sprintf(str, "%d.%d.%d.%d", a, b, c, d)`
unfoldable pub print_dotted : ℕ → ℕ → ℕ → ℕ → List ℕ
print_dotted a b c d =
    print_byte a ++ (b'.' ∷ (print_byte b ++ (b'.' ∷ (print_byte c ++ (b'.' ∷ print_byte d)))))

unfoldable pub sys_ip2str_static : ℕ → List ℕ
unfolding print_dotted
sys_ip2str_static ip = print_dotted (ip_byte ip 0) (ip_byte ip 1) (ip_byte ip 2) (ip_byte ip 3)
