-- ===== src/Log/Records.antt =====
-- Records of struct log as bytes, and what dump_log_entry and log_next do at one.
use kvm_dmesg.Base.{
  ℕ, ◌+◌, ◌-◌, ◌^◌, ◌≤◌, ◌<◌, ◌≡◌, sym, ap, ◌∙◌, [], ◌∷◌, ◌++◌, map, arith, leb, length,
  length-append, take, drop, take-append, drop-append, drop-drop, length-drop,
}
use kvm_dmesg.Base.Bytes.{Bytes, encode, length-encode, load, load-encode, load-append_left, ushort}
use kvm_dmesg.Base.Run.{ok}
use kvm_dmesg.Log.{log_len, log_text_len, sizeof_log, log_from_idx, log_next, dump_log_entry}
use kvm_dmesg.Printk.Layout.{load_behind}
use kvm_dmesg.Text.{put_text, put_char, put_text_lem}
use kvm_dmesg.Text.Decimal.{stamp}

-- A record: the fields of struct log, the text, and what stands behind it up to the next record.
pub record LogEntry : Type 0 where
  pub ts_nsec : ℕ
  pub dict_len : ℕ
  pub facility : ℕ
  pub flags_level : ℕ
  pub text : Bytes
  pub rest : Bytes

abbrev pub entry_len : LogEntry → ℕ
entry_len e = 16 + length e.text + length e.rest

-- struct log
unfoldable pub log_bytes : LogEntry → Bytes
log_bytes e =
    encode 8 e.ts_nsec
    ++ (encode 2 (entry_len e)
        ++ (encode 2 (length e.text)
            ++ (encode 2 e.dict_len ++ (encode 1 e.facility ++ encode 1 e.flags_level))))

-- The fields that are read fit their types.
pub record IsLogEntry (e : LogEntry) : Type 0 where
  pub ts_nsec_fits : e.ts_nsec < 2 ^ 64
  pub len_fits : entry_len e < 2 ^ 16

-- The line of a record.
abbrev pub entry_line : LogEntry → Bytes
entry_line e = stamp e.ts_nsec ++ (map put_char e.text ++ b'\n' ∷ [])

-- A record in front of other bytes.
abbrev pub entry_onto : LogEntry → Bytes → Bytes
entry_onto e s = log_bytes e ++ (e.text ++ (e.rest ++ s))

abbrev after_len : LogEntry → Bytes
after_len e =
    encode 2 (length e.text)
    ++ (encode 2 e.dict_len ++ (encode 1 e.facility ++ encode 1 e.flags_level))

length-after_len : (e : LogEntry) → length (after_len e) ≡ 6
length-after_len e = rw (
  length-append (encode 2 (length e.text))
      (encode 2 e.dict_len ++ (encode 1 e.facility ++ encode 1 e.flags_level)),
  length-append (encode 2 e.dict_len) (encode 1 e.facility ++ encode 1 e.flags_level),
  length-append (encode 1 e.facility) (encode 1 e.flags_level),
  length-encode 2 (length e.text),
  length-encode 2 e.dict_len,
  length-encode 1 e.facility,
  length-encode 1 e.flags_level,
)

pub length-log_bytes : (e : LogEntry) → length (log_bytes e) ≡ 16
unfolding log_bytes
length-log_bytes e = omega (
  arith,
  length-append (encode 8 e.ts_nsec) (encode 2 (entry_len e) ++ after_len e),
  length-append (encode 2 (entry_len e)) (after_len e),
  length-encode 8 e.ts_nsec,
  length-encode 2 (entry_len e),
  length-after_len e,
)

module _ (e : LogEntry) (fits : IsLogEntry e) where
  load-ts_nsec : load 8 (log_bytes e) 0 ≡ ok e.ts_nsec
  unfolding log_bytes
  load-ts_nsec = load-encode 8 e.ts_nsec _ fits.ts_nsec_fits

  load-len : load 2 (log_bytes e) log_len ≡ ok (entry_len e)
  unfolding log_bytes
  load-len =
      load_behind 2 8 0 e.ts_nsec (encode 2 (entry_len e) ++ after_len e)
        (omega (arith, length-append (encode 2 (entry_len e)) (after_len e), length-after_len e))
      ∙ load-encode 2 (entry_len e) _ fits.len_fits

  load-text_len : load 2 (log_bytes e) log_text_len ≡ ok (length e.text)
  unfolding log_bytes
  load-text_len =
      let len_fits = fits.len_fits in
      let room = length-append (encode 2 (entry_len e)) (after_len e) in
      let len_room = length-encode 2 (entry_len e) in
      let after_room = length-after_len e in
      load_behind 2 8 2 e.ts_nsec (encode 2 (entry_len e) ++ after_len e) (omega arith)
      ∙ load_behind 2 2 0 (entry_len e) (after_len e) (omega arith)
      ∙ load-encode 2 (length e.text) _ (omega arith)

leb_shift : (i off w n : ℕ) → 0 < w → leb (i + off + w) n ≡ leb (off + w) (n - i)
leb_shift i off w n h = ground arith

-- A load behind an offset is a load from what stands there.
pub load-drop : (w off i : ℕ) (buf : Bytes) → 0 < w → load w buf (i + off) ≡ load w (drop i buf) off
unfolding load
load-drop w off i buf h =
    rw (drop-drop off i buf, length-drop i buf, leb_shift i off w (length buf) h)

-- The record `e` stands at `idx` in the buffer, in front of `s`.
module _ (buf : Bytes) (idx : ℕ) (e : LogEntry) (s : Bytes) (fits : IsLogEntry e)
    (at : drop idx buf ≡ entry_onto e s) where
  field :
      (w off v : ℕ)
      → 0 < w
      → off + w ≤ 16
      → load w (log_bytes e) off ≡ ok v
      → load w buf (idx + off) ≡ ok v
  field w off v pos room there =
      load-drop w off idx buf pos
      ∙ ap (λ (t : Bytes). load w t off) at
      ∙ load-append_left w off (log_bytes e) (e.text ++ (e.rest ++ s))
          (omega (arith, length-log_bytes e))
      ∙ there

  pub field_len : ushort buf (idx + log_len) ≡ ok (entry_len e)
  field_len = field 2 log_len (entry_len e) (omega arith) (omega arith) (load-len e fits)

  drop_header : drop (idx + 16) buf ≡ e.text ++ (e.rest ++ s)
  drop_header =
      sym (drop-drop 16 idx buf)
      ∙ ap (drop 16) at
      ∙ ap (λ (n : ℕ). drop n (entry_onto e s)) (sym (length-log_bytes e))
      ∙ drop-append (log_bytes e) (e.text ++ (e.rest ++ s))

  text_room : idx + 16 + length e.text ≤ length buf
  text_room = omega (
    arith,
    length-drop idx buf,
    ap length at,
    length-append (log_bytes e) (e.text ++ (e.rest ++ s)),
    length-append e.text (e.rest ++ s),
    length-log_bytes e,
  )

  put_text_step : put_text (length e.text) buf (idx + sizeof_log) ≡ ok (map put_char e.text)
  put_text_step =
      put_text_lem (length e.text) buf (idx + 16) text_room
      ∙ ap (λ (t : Bytes). ok (map put_char (take (length e.text) t))) drop_header
      ∙ ap (λ (t : Bytes). ok (map put_char t)) (take-append e.text (e.rest ++ s))

  -- dump_log_entry prints the line of the record.
  pub dump_log_entry-entry_line : dump_log_entry buf idx ≡ ok (entry_line e)
  unfolding dump_log_entry
  dump_log_entry-entry_line = rw (
    field 2 log_text_len (length e.text) (omega arith) (omega arith) (load-text_len e fits),
    field 8 0 e.ts_nsec (omega arith) (omega arith) (load-ts_nsec e fits),
    put_text_step,
  )

  pub log_from_idx_lem : log_from_idx idx buf ≡ ok idx
  unfolding log_from_idx
  log_from_idx_lem = rw field_len (ground arith)

  pub log_next_lem : idx + entry_len e < 2 ^ 32 → log_next idx buf ≡ ok (idx + entry_len e)
  unfolding log_next
  log_next_lem h = rw field_len (ground arith)

  -- Behind the record stands what follows it.
  pub drop-entry_len : drop (idx + entry_len e) buf ≡ s
  drop-entry_len =
      let behind : idx + entry_len e ≡ idx + 16 + length e.text + length e.rest = omega arith in
      ap (λ (n : ℕ). drop n buf) behind
      ∙ sym (drop-drop (length e.rest) (idx + 16 + length e.text) buf)
      ∙ ap (drop (length e.rest)) (sym (drop-drop (length e.text) (idx + 16) buf))
      ∙ ap (λ (t : Bytes). drop (length e.rest) (drop (length e.text) t)) drop_header
      ∙ ap (drop (length e.rest)) (drop-append e.text (e.rest ++ s))
      ∙ drop-append e.rest s
