-- ===== src/Client/Sensors/Alarms.antt =====
-- The answer to GET_ALARM_STATUS.
use itertk.Base.{
  ℕ, zero, suc, ◌+◌, ◌*◌, ◌≤◌, ◌≡◌, refl, ap, ◌∙◌, some, List, [], ◌∷◌, ◌++◌, Buf, store, bytes,
  arith, u8, length, get_or, get_elem?-eq-get_or, Piece, Piece-frame, ◌>>=◌,
}
use itertk.Conf.{ConfigSensor, ConfiData}
use itertk.Client.Frame.{make_ack_head, make_crc_num}
use itertk.Client.Sensors.{get_entries, alarm_entries, make_ack_get_alarm_status}
use itertk.Client.Sensors.Entries.{Fits, entries, get_entries-Wrote}
use itertk.Client.Sensors.Text.{length-entries}

-- The class with the alarms in place of its attributes.
abbrev pub with_alarms : ConfigSensor → List ℕ → ConfigSensor
with_alarms s alarm_in = record s { attr = alarm_in }

-- The loop is that of the attributes over the alarms.
alarm_entries-get_entries :
    (k j i : ℕ) (s : ConfigSensor) (alarm_in : List ℕ) (b : Buf)
    → length s.seq_num ≡ 8
    → length alarm_in ≡ 8
    → j + k ≤ 8
    → alarm_entries k i j s alarm_in b
      ≡ (get_entries k i j (with_alarms s alarm_in) 3 b >>= λ r. some (j + k, r))
unfolding alarm_entries get_entries
alarm_entries-get_entries zero j i s alarm_in b f g h = ap (λ n. some (n, b)) (omega arith)
alarm_entries-get_entries (suc k) j i s alarm_in b f g h =
    let next : j + 1 + k ≡ j + suc k = omega arith in
    rw (get_elem?-eq-get_or s.seq_num j 0 (omega (arith, f))) (
      rw (get_elem?-eq-get_or alarm_in j 0 (omega (arith, g))) (
        alarm_entries-get_entries k (j + 1) (u8 (i + 2)) s alarm_in
          (store (store b (5 + i) (get_or s.seq_num j 0)) (6 + i) (get_or alarm_in j 0)) f g
          (omega arith)
        ∙ ap
            (λ n.
              get_entries k (u8 (i + 2)) (j + 1) (with_alarms s alarm_in) 3
                (store (store b (5 + i) (get_or s.seq_num j 0)) (6 + i) (get_or alarm_in j 0))
              >>= λ r. some (n, r))
            next))

-- GET_ALARM_STATUS is answered by the head, the count of the alarm inputs in use, the number and the
-- alarm of each, and the checksum byte.
pub get_alarm_status_answer :
    (conf : ConfiData) (alarm_in : List ℕ) (b : Buf)
    → Fits conf.sensor_io_in
    → length alarm_in ≡ 8
    → (r : ℕ × Buf) × (make_ack_get_alarm_status conf alarm_in b ≡ some r)
      × (bytes r.1 0 r.0
          ≡ 0x55
            ∷ 0xaa
            ∷ 0x06
            ∷ 0x01
            ∷ conf.sensor_io_in.num
            ∷ (entries conf.sensor_io_in.seq_num alarm_in conf.sensor_io_in.num 0 ++ (0 ∷ [])))
      × (r.0 ≤ 22)
unfolding make_ack_get_alarm_status make_ack_head
get_alarm_status_answer conf alarm_in b f a =
    let s = conf.sensor_io_in in
    let start = store (make_ack_head b 0x06) 4 s.num in
    let fit : Fits (with_alarms s alarm_in) = record {
      num_le = f.num_le;
      seq_len = f.seq_len;
      attr_len = a;
    } in
    let (r, e, w) =
      get_entries-Wrote s.num 0 0 (with_alarms s alarm_in) 3 start fit refl
        (omega (arith, f.num_le)) in
    let same =
      alarm_entries-get_entries s.num 0 0 s alarm_in start f.seq_len a (omega (arith, f.num_le)) in
    let n = length-entries s.seq_num alarm_in s.num 0 in
    let p : Piece 5 start (entries s.seq_num alarm_in s.num 0) (2 * s.num, r) = record {
      count = omega (arith, n);
      below = λ m h. w.below m (omega arith);
      text = rw n w.text;
    } in
    let count : 0 + s.num ≡ s.num = omega arith in
    let size : s.num * 2 ≡ 2 * s.num = omega arith in
    (
      (5 + s.num * 2 + 1, store r (5 + s.num * 2) (make_crc_num r (5 + s.num * 2))),
      rw (same, e, count) refl,
      rw size (Piece-frame p),
      omega (arith, f.num_le),
    )
