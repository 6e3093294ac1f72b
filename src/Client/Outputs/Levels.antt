-- ===== src/Client/Outputs/Levels.antt =====
-- What GET_IO_STATUS and GET_TEMP_STATUS answer.
use itertk.Base.{
  ℕ, zero, suc, ◌+◌, ◌*◌, ◌/◌, ◌%◌, ◌≤◌, ◌<◌, ◌≡◌, refl, ◌∙◌, ap, ap₂, false, ◌&&◌, ◌||◌, Option,
  none, some, List, [], ◌∷◌, ◌++◌, Buf, store, store_ne, bytes, arith, ltb, ◌==◌, if◌then◌else◌, u8,
  get_or, Piece, Piece-frame,
}
use itertk.Client.{Env}
use itertk.Client.Frame.{make_ack_head, make_crc_num}
use itertk.Client.Outputs.{
  read_level, output_pin, level_of, get_levels, make_ack_get_io_status, three_digits,
  make_ack_get_temp_status, io_out_num,
}

-- The level of output `seq`: 255 for a number that is none.
abbrev pub level : (ℕ → ℕ) → ℕ → ℕ
level v seq = if ltb 0 seq && ltb seq 5 then v (get_or (0 ∷ 96 ∷ 42 ∷ 43 ∷ 44 ∷ []) seq 0) else 255

-- `k` numbers of a command from offset `o` on, each with its output's level
abbrev pub levels : ℕ → ℕ → (ℕ → ℕ) → Buf → List ℕ
levels zero o v cmd = []
levels (suc k) o v cmd = cmd o ∷ level v (cmd o) ∷ levels k (o + 1) v cmd

read_level_lem :
    (v : ℕ → ℕ) (ch : Option ℕ) (p gs : ℕ) → ch ≡ some (48 + v p) → v p ≤ 1 → read_level ch gs ≡ v p
read_level_lem v ch p gs e b = let wrap : (48 + v p + 208) % 256 ≡ v p = omega arith in rw e wrap

level_lem :
    (env : Env) (v : ℕ → ℕ) (seq gs : ℕ)
    → ((p : ℕ) → env.read_gpio p ≡ some (48 + v p))
    → ((p : ℕ) → v p ≤ 1)
    → (level_of env (output_pin seq) gs).0 ≡ level v seq
unfolding level_of output_pin
level_lem env v zero gs r b = refl
level_lem env v (suc zero) gs r b = read_level_lem v (env.read_gpio 96) 96 gs (r 96) (b 96)
level_lem env v (suc (suc zero)) gs r b = read_level_lem v (env.read_gpio 42) 42 gs (r 42) (b 42)
level_lem env v (suc (suc (suc zero))) gs r b =
    read_level_lem v (env.read_gpio 43) 43 gs (r 43) (b 43)
level_lem env v (suc (suc (suc (suc zero)))) gs r b =
    read_level_lem v (env.read_gpio 44) 44 gs (r 44) (b 44)
level_lem env v (suc (suc (suc (suc (suc n))))) gs r b =
    let seq = suc (suc (suc (suc (suc n)))) in
    let free : output_pin seq ≡ none = ground arith in
    let out : ltb 0 seq && ltb seq 5 ≡ false = ground arith in rw (free, out) refl

-- The digits of a sensor's text: temperature as `ab.c`, humidity as `de.f` from offset 7 on.
pub record Reads (t : Buf) (a b c d e f : ℕ) : Type 0 where
  pub temp_tens : t 0 ≡ 48 + a
  pub temp_ones : t 1 ≡ 48 + b
  pub temp_tenths : t 3 ≡ 48 + c
  pub hum_tens : t 7 ≡ 48 + d
  pub hum_ones : t 8 ≡ 48 + e
  pub hum_tenths : t 10 ≡ 48 + f

three_digits_lem :
    (t : Buf) (i j k a b c : ℕ)
    → t i ≡ 48 + a
    → t j ≡ 48 + b
    → t k ≡ 48 + c
    → a < 10
    → b < 10
    → c < 10
    → three_digits t i j k ≡ 100 * a + 10 * b + c
unfolding three_digits
three_digits_lem t i j k a b c p q r l m n = omega arith

-- GET_TEMP_STATUS answers humidity, then temperature, each in tenths as two bytes, when the sensor's
-- text is `ab.c` with the humidity `de.f` from its offset 7 on.
pub temp_status_answer :
    (env : Env) (buf : Buf) (a b c d e f : ℕ)
    → Reads env.sensor a b c d e f
    → (a < 10) × (b < 10) × (c < 10)
    → (d < 10) × (e < 10) × (f < 10)
    → bytes (make_ack_get_temp_status env buf).1 0 (make_ack_get_temp_status env buf).0
      ≡ 0x55
        ∷ 0xaa
        ∷ 0x24
        ∷ 0x01
        ∷ 1
        ∷ 1
        ∷ ((100 * d + 10 * e + f) / 256)
        ∷ ((100 * d + 10 * e + f) % 256)
        ∷ ((100 * a + 10 * b + c) / 256)
        ∷ ((100 * a + 10 * b + c) % 256)
        ∷ 0
        ∷ []
unfolding make_ack_get_temp_status make_ack_head make_crc_num
temp_status_answer env buf a b c d e f t low high =
    let hum =
      three_digits_lem env.sensor 7 8 10 d e f t.hum_tens t.hum_ones t.hum_tenths high.0 high.1
        high.2 in
    let temp =
      three_digits_lem env.sensor 0 1 3 a b c t.temp_tens t.temp_ones t.temp_tenths low.0 low.1
        low.2 in
    rw (hum, temp) refl

get_levels-Piece :
    (k j i : ℕ) (env : Env) (v : ℕ → ℕ) (cmd : Buf) (gs : ℕ) (b : Buf)
    → ((p : ℕ) → env.read_gpio p ≡ some (48 + v p))
    → ((p : ℕ) → v p ≤ 1)
    → i ≡ 2 * j
    → j + k ≤ 4
    → Piece (5 + 2 * j) b (levels k (5 + j) v cmd) (2 * k, get_levels k i j env cmd gs b)
unfolding get_levels
get_levels-Piece zero j i env v cmd gs b r l e h = record {
  count = refl;
  below = λ m p. refl;
  text = refl;
}
get_levels-Piece (suc k) j i env v cmd gs b r l e h =
    let seq = cmd (5 + j) in
    let here = level_of env (output_pin seq) gs in
    let b' = store (store b (5 + i) seq) (6 + i) here.0 in
    let w =
      get_levels-Piece k (j + 1) (u8 (i + 2)) env v cmd here.1 b' r l (omega arith) (omega arith) in
    let rest : levels k (5 + (j + 1)) v cmd ≡ levels k (5 + j + 1) v cmd =
      ap (λ o. levels k o v cmd) (omega arith) in
    let first : b' (5 + 2 * j) ≡ seq = ground arith in
    let second : b' (5 + 2 * j + 1) ≡ here.0 = ground arith in
    let next : 5 + 2 * (j + 1) ≡ 5 + 2 * j + 1 + 1 = omega arith in
    let tail = rw (rest, next) at w.text in
    record {
      count = omega (arith, rw rest at w.count);
      below = λ m p.
          w.below m (omega arith)
          ∙ store_ne (store b (5 + i) seq) (6 + i) here.0 m (λ q. omega arith)
          ∙ store_ne b (5 + i) seq m (λ q. omega arith);
      text = ap₂ ◌∷◌ (w.below (5 + 2 * j) (omega arith) ∙ first) (
          ap₂ ◌∷◌ (w.below (5 + 2 * j + 1) (omega arith) ∙ second ∙ level_lem env v seq gs r l)
            tail);
    }

-- When all pins are read, as 0 or 1, GET_IO_STATUS for one to four outputs answers, for each number of the command in its order, the
-- number and the level of its pin, 255 if there is no such output.
pub io_status_answer :
    (env : Env) (v : ℕ → ℕ) (cmd buf : Buf)
    → ((p : ℕ) → env.read_gpio p ≡ some (48 + v p))
    → ((p : ℕ) → v p ≤ 1)
    → 0 < cmd 4
    → cmd 4 ≤ 4
    → (r : ℕ × Buf) × (make_ack_get_io_status env cmd buf ≡ some r)
      × (bytes r.1 0 r.0 ≡ 0x55 ∷ 0xaa ∷ 0x1c ∷ 0x01 ∷ cmd 4 ∷ (levels (cmd 4) 5 v cmd ++ (0 ∷ [])))
unfolding make_ack_get_io_status make_ack_head make_crc_num
io_status_answer env v cmd buf r b pos le =
    let n = cmd 4 in
    let start = store (make_ack_head buf 0x1c) 4 n in
    let p = get_levels-Piece n 0 0 env v cmd 0 start r b refl (omega arith) in
    let go : n == 0 || ltb io_out_num n ≡ false = ground arith in
    let whole = get_levels n 0 0 env cmd 0 start in
    ((5 + 2 * n + 1, store whole (5 + 2 * n) 0), rw go refl, Piece-frame p)
