-- ===== src/Client/Sensors/Answers.antt =====
-- The answers to GET_DEVICE_ATTR, SET_DEVICE_ATTR and GET_ALARM_STATUS.
use itertk.Base.{
  ℕ, suc, ◌+◌, ◌-◌, ◌*◌, ◌≤◌, ◌<◌, ◌≡◌, refl, ◌∙◌, ap, true, false, some, List, [], ◌∷◌, ◌++◌, Buf,
  store, bytes, length-append, arith, ltb, ◌==◌, if◌then◌else◌, u8, copy, offset, bytes-copy,
  copy_below, length, bytes-offset, Piece, Piece-append, Piece-frame,
}
use itertk.Conf.{ConfigSensor, ConfiData}
use itertk.Client.{Client, config_save, Event}
use itertk.Client.Frame.{make_ack_head, make_crc_num}
use itertk.Client.Sensors.{
  get_all_sensor_buf, make_ack_get_device_attr, set_one_sensor_buf, set_alarmin_device_attr,
  make_ack_set_device_attr,
}
use itertk.Client.Sensors.Entries.{Fits, entries, set_entries-Read}
use itertk.Client.Sensors.Text.{sensor_text, length-sensor_text, get_one_sensor_buf-Piece}

-- The four classes of a configuration fit their arrays.
pub record SensorsFit (conf : ConfiData) : Type 0 where
  pub uart : Fits conf.sensor_uart
  pub io_in : Fits conf.sensor_io_in
  pub io_out : Fits conf.sensor_io_out
  pub single_bus : Fits conf.sensor_single_bus

abbrev pub sensors_text : ConfiData → List ℕ
sensors_text conf =
    sensor_text conf.sensor_uart
    ++ sensor_text conf.sensor_io_in
    ++ sensor_text conf.sensor_io_out
    ++ sensor_text conf.sensor_single_bus

sensors_len :
    (conf : ConfiData) (n : ℕ) → SensorsFit conf → n ≡ length (sensors_text conf) → 6 + n ≤ 78
sensors_len conf n f e =
    let a = sensor_text conf.sensor_uart in
    let b = sensor_text conf.sensor_io_in in
    let c = sensor_text conf.sensor_io_out in
    let d = sensor_text conf.sensor_single_bus in
    let total : n ≡ length a + length b + length c + length d =
      e
      ∙ length-append (a ++ b ++ c) d
      ∙ ap (λ k. k + length d)
          (length-append (a ++ b) c ∙ ap (λ k. k + length c) (length-append a b)) in
    omega (
      arith,
      total,
      length-sensor_text conf.sensor_uart f.uart.num_le,
      length-sensor_text conf.sensor_io_in f.io_in.num_le,
      length-sensor_text conf.sensor_io_out f.io_out.num_le,
      length-sensor_text conf.sensor_single_bus f.single_bus.num_le,
    )

get_all_sensor_buf-Piece :
    (conf : ConfiData) (o : ℕ) (b : Buf)
    → SensorsFit conf
    → (r : ℕ × Buf) × (get_all_sensor_buf conf o b ≡ some r) × Piece o b (sensors_text conf) r
unfolding get_all_sensor_buf
get_all_sensor_buf-Piece conf o b f =
    let (r1, e1, p1) = get_one_sensor_buf-Piece conf.sensor_uart o b f.uart in
    let (r2, e2, p2) = get_one_sensor_buf-Piece conf.sensor_io_in (o + r1.0) r1.1 f.io_in in
    let (r3, e3, p3) =
      get_one_sensor_buf-Piece conf.sensor_io_out (o + (r1.0 + r2.0)) r2.1 f.io_out in
    let (r4, e4, p4) =
      get_one_sensor_buf-Piece conf.sensor_single_bus (o + (r1.0 + r2.0 + r3.0)) r3.1
        f.single_bus in
    (
      (r1.0 + r2.0 + r3.0 + r4.0, r4.1),
      rw e1 (rw e2 (rw e3 (rw e4))),
      Piece-append (Piece-append (Piece-append p1 p2) p3) p4,
    )

-- GET_DEVICE_ATTR is answered, for a configuration whose classes fit their arrays, by the head with
-- identifier 2, the number of classes, the text of each class in order, and the checksum byte; the
-- answer has at most 78 bytes.
pub get_device_attr_answer :
    (conf : ConfiData) (b : Buf)
    → SensorsFit conf
    → (r : ℕ × Buf) × (make_ack_get_device_attr conf b ≡ some r)
      × (bytes r.1 0 r.0 ≡ 0x55 ∷ 0xaa ∷ 0x02 ∷ 0x01 ∷ 4 ∷ (sensors_text conf ++ (0 ∷ [])))
      × (r.0 ≤ 78)
unfolding make_ack_get_device_attr make_ack_head
get_device_attr_answer conf b f =
    let start = store (make_ack_head b 0x02) 4 4 in
    let (r, e, p) = get_all_sensor_buf-Piece conf 5 start f in
    (
      (6 + r.0, store r.1 (5 + r.0) (make_crc_num r.1 (5 + r.0))),
      rw e,
      (let size : 6 + r.0 ≡ 5 + r.0 + 1 = omega arith in rw size (Piece-frame p)),
      sensors_len conf r.0 f p.count,
    )

-- Reading the entries of a frame into a class.
set_one_sensor_buf-Fits :
    (cmd : Buf) (s : ConfigSensor)
    → Fits s
    → 0 < cmd 4
    → cmd 4 ≤ 8
    → (t : ConfigSensor) × (set_one_sensor_buf (offset cmd 4) s ≡ some (true, t))
      × Fits t
      × (t.num ≡ cmd 4)
      × (t.type ≡ s.type)
      × (entries t.seq_num t.attr (cmd 4) 0 ≡ bytes cmd 5 (2 * cmd 4))
unfolding set_one_sensor_buf
set_one_sensor_buf-Fits cmd s f pos le =
    let s' = record s { num = cmd 4 } in
    let (t, e, w) =
      set_entries-Read (cmd 4) 0 0 s' (offset cmd 4) f.seq_len f.attr_len refl (omega arith) in
    let nonzero : (cmd 4 == 0) ≡ false = ground arith in
    let small : ltb 8 (cmd 4) ≡ false = ground arith in
    (
      t,
      rw (nonzero, small, e),
      record { num_le = omega (arith, w.num_kept); seq_len = w.seq_len; attr_len = w.attr_len },
      w.num_kept,
      w.type_kept,
      w.text ∙ bytes-offset cmd 4 1 (2 * cmd 4),
    )

-- The class's text without its type.
abbrev pub sensor_tail : ConfigSensor → List ℕ
sensor_tail s = s.num ∷ (if s.num == 0 then 0 ∷ 0 ∷ [] else entries s.seq_num s.attr s.num 0)

close :
    (head src : Buf) (m n : ℕ)
    → m ≡ suc n
    → (t : List ℕ) → Piece 4 head t (n, copy n head 4 src 1)
    → bytes (store (copy (m - 1) head 4 src 1) (4 + m - 1) 0) 0 (4 + m)
      ≡ bytes head 0 4 ++ (t ++ (0 ∷ []))
close head src m n e t p =
    let e1 : m - 1 ≡ n = omega arith in
    let e2 : 4 + m - 1 ≡ 4 + n = omega arith in
    let e3 : 4 + m ≡ 4 + n + 1 = omega arith in rw (e1, e2, e3) (Piece-frame p)

-- The answer to SET_DEVICE_ATTR is the head with identifier 4, the count and the entries of the alarm
-- inputs as they are configured now, and the checksum byte.
pub set_device_attr_ack :
    (conf : ConfiData) (b : Buf)
    → Fits conf.sensor_io_in
    → (r : ℕ × Buf) × (make_ack_set_device_attr conf b ≡ some r)
      × (bytes r.1 0 r.0 ≡ 0x55 ∷ 0xaa ∷ 0x04 ∷ 0x01 ∷ (sensor_tail conf.sensor_io_in ++ (0 ∷ [])))
unfolding make_ack_set_device_attr make_ack_head
set_device_attr_ack conf b f =
    let (r, e, p) = get_one_sensor_buf-Piece conf.sensor_io_in 0 (λ _. 0) f in
    let small : r.0 ≤ 18 = omega (arith, p.count, length-sensor_text conf.sensor_io_in f.num_le) in
    let fits : u8 r.0 ≡ r.0 = omega arith in
    let n = length (sensor_tail conf.sensor_io_in) in
    let count : r.0 ≡ suc n = p.count in
    let head = make_ack_head b 0x04 in
    let body : bytes r.1 1 n ≡ sensor_tail conf.sensor_io_in = cc (p.text) in
    let piece : Piece 4 head (sensor_tail conf.sensor_io_in) (n, copy n head 4 r.1 1) = record {
      count = refl;
      below = λ m h. copy_below n head 4 r.1 1 m h;
      text = bytes-copy n head 4 r.1 1 ∙ body;
    } in
    let m = u8 r.0 in
    (
      (4 + m, store (copy (m - 1) head 4 r.1 1) (4 + m - 1) 0),
      rw e,
      close head r.1 m n (omega arith) (sensor_tail conf.sensor_io_in) piece,
    )

-- The entries of a frame are the alarm inputs, and the rest of the configuration is as it was.
pub record Stores (cmd : Buf) (conf conf' : ConfiData) : Type 0 where
  pub count : conf'.sensor_io_in.num ≡ cmd 4
  pub held :
      entries conf'.sensor_io_in.seq_num conf'.sensor_io_in.attr (cmd 4) 0 ≡ bytes cmd 5 (2 * cmd 4)
  pub type_kept : conf'.sensor_io_in.type ≡ conf.sensor_io_in.type
  pub rest_kept : conf' ≡ record conf { sensor_io_in = conf'.sensor_io_in }

-- SET_DEVICE_ATTR with a count of 1 to 8 stores the frame's entries in a class that still fits its
-- arrays, saves that configuration, and is answered by the same count and entries.
pub set_device_attr_roundtrip :
    (cmd b : Buf) (c : Client)
    → Fits c.conf.sensor_io_in
    → 0 < cmd 4
    → cmd 4 ≤ 8
    → (c' : Client) × (set_alarmin_device_attr cmd c ≡ some c')
      × Fits c'.conf.sensor_io_in
      × Stores cmd c.conf c'.conf
      × (c'.log ≡ Event.saved c'.conf ∷ c.log)
      × (c'.buf_send ≡ c.buf_send)
      × ((r : ℕ × Buf) × (make_ack_set_device_attr c'.conf b ≡ some r)
          × (bytes r.1 0 r.0
              ≡ 0x55 ∷ 0xaa ∷ 0x04 ∷ 0x01 ∷ cmd 4 ∷ (bytes cmd 5 (2 * cmd 4) ++ (0 ∷ []))))
unfolding set_alarmin_device_attr
set_device_attr_roundtrip cmd b c f pos le =
    let (t, e, fit, num, kind, text) = set_one_sensor_buf-Fits cmd c.conf.sensor_io_in f pos le in
    let conf = c.conf in
    let conf' = record conf { sensor_io_in = t } in
    let (r, er, answer) = set_device_attr_ack conf' b fit in
    let nonzero : (cmd 4 == 0) ≡ false = ground arith in
    let tail : sensor_tail t ≡ cmd 4 ∷ bytes cmd 5 (2 * cmd 4) =
      rw num (rw nonzero (ap (λ l. cmd 4 ∷ l) text)) in
    (
      config_save (record c { conf = conf' }),
      rw e,
      fit,
      record { count = num; held = text; type_kept = kind; rest_kept = refl },
      refl,
      refl,
      (r, er, answer ∙ ap (λ l. 0x55 ∷ 0xaa ∷ 0x04 ∷ 0x01 ∷ (l ++ (0 ∷ []))) tail),
    )
