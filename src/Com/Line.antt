-- ===== src/Com/Line.antt =====
-- The settings that SET_UART_ATTR accepts, seen from the line that they are made for.
use itertk.Base.{
  ℕ, ◌≡◌, refl, ap, ◌∙◌, true, false, some, ltb, leb, ◌==◌, ◌&&◌, arith, Bool-cases, inl, inr, ◌<◌,
}
use itertk.Conf.{ConfigCom}
use itertk.Client.Uart.{is_good_bps, is_good_uart}
use itertk.Com.{
  Termios, TtyResult, line_speed, line_databits, line_parity, line_stopbits, line_settings,
  apply_line, set_tty,
}

line_speed-good : (bps : ℕ) → is_good_bps bps ≡ true → line_speed bps ≡ bps
unfolding line_speed is_good_bps
line_speed-good bps h = ground arith

-- the four parts of what is_good_uart accepts
pub record Good (pcom : ConfigCom) : Type 0 where
  pub bps : is_good_bps pcom.bps ≡ true
  pub dbit : (leb 5 pcom.dbit && leb pcom.dbit 8) ≡ true
  pub chk : (leb 1 pcom.chk && leb pcom.chk 3) ≡ true
  pub sbit : (leb 1 pcom.sbit && leb pcom.sbit 2) ≡ true

pub is_good_uart-Good : (pcom : ConfigCom) → is_good_uart pcom ≡ true → Good pcom
unfolding is_good_uart
is_good_uart-Good pcom h = elim (Bool-cases (is_good_bps pcom.bps)) [
  | inr bad ↦ absurd (let f : false ≡ true = rw bad at h in cc)
  | inl bps ↦ elim (Bool-cases (leb 5 pcom.dbit && leb pcom.dbit 8)) [
    | inr bad ↦ absurd (let f : false ≡ true = rw (bps, bad) at h in cc)
    | inl dbit ↦ elim (Bool-cases (leb 1 pcom.chk && leb pcom.chk 3)) [
      | inr bad ↦ absurd (let f : false ≡ true = rw (bps, dbit, bad) at h in cc)
      | inl chk ↦ record { bps = bps; dbit = dbit; chk = chk; sbit = rw (bps, dbit, chk) at h }
    ]
  ]
]

line_databits-good : (n : ℕ) → (leb 5 n && leb n 8) ≡ true → line_databits n ≡ some n
unfolding line_databits
line_databits-good n h = ground arith

line_parity-good :
    (chk : ℕ)
    → (leb 1 chk && leb chk 3) ≡ true
    → line_parity chk ≡ some (ltb chk 3, chk == 2, ltb chk 3)
unfolding line_parity
line_parity-good chk h = ground arith

line_stopbits-good :
    (sbit : ℕ) → (leb 1 sbit && leb sbit 2) ≡ true → line_stopbits sbit ≡ some (sbit == 2)
unfolding line_stopbits
line_stopbits-good sbit h = ground arith

-- Raw mode with no waiting, at some speed, with the other settings of the port.
abbrev pub line_of : ℕ → ConfigCom → Termios
line_of speed pcom = record {
  speed = speed;
  csize = some pcom.dbit;
  parenb = ltb pcom.chk 3;
  parodd = pcom.chk == 2;
  inpck_istrip = ltb pcom.chk 3;
  cstopb = pcom.sbit == 2;
  clocal_cread = true;
  icanon_echo_isig = false;
  opost = false;
  vtime = 0;
  vmin = 0;
}

-- Settings that is_good_uart accepts are what an open line gets that takes them: its speed, its
-- character size, its parity (3 none, 2 odd, 1 even) and its stop bits are exactly those of the settings,
-- in raw mode with no waiting.
pub set_tty-good :
    (fd : ℕ) (old : Termios) (pcom : ConfigCom)
    → 0 < fd
    → is_good_uart pcom ≡ true
    → set_tty true fd old pcom.bps pcom.dbit pcom.chk pcom.sbit
      ≡ (TtyResult.set_line, line_of pcom.bps pcom)
unfolding set_tty apply_line
set_tty-good fd old pcom live h =
    let g = is_good_uart-Good pcom h in
    let open_port : ltb 0 fd ≡ true = ground arith in
    let made : line_settings old pcom.bps pcom.dbit pcom.chk pcom.sbit
        ≡ (TtyResult.set_line, line_of (line_speed pcom.bps) pcom) =
      rw
        (
          line_databits-good pcom.dbit g.dbit,
          line_parity-good pcom.chk g.chk,
          line_stopbits-good pcom.sbit g.sbit,
          line_settings,
        )
        refl in
    rw open_port (
      ap (apply_line true old) made
      ∙ ap (λ n. (TtyResult.set_line, line_of n pcom)) (line_speed-good pcom.bps g.bps))
