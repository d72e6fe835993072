-- ===== src/Petstore/Log/Format.antt =====
-- The lines that Println and Printf of log.go write, with the standard flags, read back.
use mathlib.Core.List.{append_assoc, append-nil}
use gofordevopsclass.Prelude.{
  ℕ, ◌+◌, ◌-◌, ◌*◌, ◌<◌, ◌⊎◌, not, ◌||◌, nat_beq, if◌then◌else◌, [], ◌∷◌, ◌++◌, Option, some,
  length, inl, inr, ◌≡◌, refl, arith,
}
use gofordevopsclass.Prelude.Int.{pos}
use gofordevopsclass.Petstore.Log.{
  Bytes, slash, colon, Moment, Now, has_flag, format_date, format_clock, format_header, ends_line,
  output,
}
use gofordevopsclass.Petstore.Log.Decimal.{read, AreDigits, power, read-itoa}

-- A number up to a byte that stops it, and what stands behind that byte.
unfoldable pub field_from : ℕ → ℕ → Bytes → ℕ × Bytes
field_from acc stop [] = (acc, [])
field_from acc stop (c ∷ cs) =
    let rest = field_from (acc * 10 + (c - 48)) stop cs in
    if nat_beq c stop then (acc, cs) else rest

abbrev pub IsStop : ℕ → Type 0
IsStop stop = (stop < 48) ⊎ (57 < stop)

field_lem :
    (acc stop : ℕ) (bs rest : Bytes)
    → IsStop stop
    → AreDigits bs
    → field_from acc stop (bs ++ (stop ∷ rest)) ≡ (read acc bs, rest)
unfolding field_from
field_lem acc stop [] rest s d = ground arith
field_lem acc stop (c ∷ bs) rest s d =
    ground (arith, field_lem (acc * 10 + (c - 48)) stop bs rest s d.1)

-- The fields of the time of a line, and its text.
pub record Line : Type 0 where
  pub year : ℕ
  pub month : ℕ
  pub day : ℕ
  pub hour : ℕ
  pub min : ℕ
  pub sec : ℕ
  pub text : Bytes

-- Reads "2009/01/23 01:23:23 text".
unfoldable pub read_line : Bytes → Line
read_line bs =
    let year = field_from 0 slash bs in
    let month = field_from 0 slash year.1 in
    let day = field_from 0 32 month.1 in
    let hour = field_from 0 colon day.1 in
    let min = field_from 0 colon hour.1 in
    let sec = field_from 0 32 min.1 in
    record {
      year = year.0;
      month = month.0;
      day = day.0;
      hour = hour.0;
      min = min.0;
      sec = sec.0;
      text = sec.1;
    }

-- The text of the event: the message, with a line feed behind it if it has none.
abbrev pub with_newline : Bytes → Bytes
with_newline s = if nat_beq (length s) 0 || not (ends_line s) then s ++ (10 ∷ []) else s

-- A time whose fields fit into Go's int.
pub record Fits (t : Moment) : Type 0 where
  pub year_fits : t.year < power 20
  pub month_fits : t.month < power 20
  pub day_fits : t.day < power 20
  pub hour_fits : t.hour < power 20
  pub min_fits : t.min < power 20
  pub sec_fits : t.sec < power 20

-- A date, a clock and a text, put together in the two orders.
abbrev date_bytes : Bytes → Bytes → Bytes → Bytes → Bytes
date_bytes y m d rest = y ++ (slash ∷ (m ++ (slash ∷ (d ++ (32 ∷ rest)))))

abbrev clock_bytes : Bytes → Bytes → Bytes → Bytes → Bytes
clock_bytes h n s rest = h ++ (colon ∷ (n ++ (colon ∷ (s ++ (32 ∷ rest)))))

joined :
    (y m d h n s text : Bytes)
    → ((date_bytes y m d [] ++ clock_bytes h n s []) ++ []) ++ text
      ≡ date_bytes y m d (clock_bytes h n s text)
joined y m d h n s text = simp (append_assoc, append-nil)

read-joined :
    (y m d h n s text : Bytes)
    → AreDigits y
    → AreDigits m
    → AreDigits d
    → AreDigits h
    → AreDigits n
    → AreDigits s
    → read_line (date_bytes y m d (clock_bytes h n s text)) ≡ (record {
      year = read 0 y;
      month = read 0 m;
      day = read 0 d;
      hour = read 0 h;
      min = read 0 n;
      sec = read 0 s;
      text = text;
    })
unfolding read_line
read-joined y m d h n s text a b c e f g =
    rw
      (
        field_lem 0 slash y (m ++ (slash ∷ (d ++ (32 ∷ clock_bytes h n s text))))
            (inl (omega arith)) a,
        read_line,
        field_lem 0 slash m (d ++ (32 ∷ clock_bytes h n s text)) (inl (omega arith)) b,
        field_lem 0 32 d (clock_bytes h n s text) (inl (omega arith)) c,
        field_lem 0 colon h (n ++ (colon ∷ (s ++ (32 ∷ text)))) (inr (omega arith)) e,
        field_lem 0 colon n (s ++ (32 ∷ text)) (inr (omega arith)) f,
        field_lem 0 32 s text (inl (omega arith)) g,
      )
      refl

-- A line that is written with the standard flags, Ldate and Ltime, at a time whose fields fit into
-- Go's int, reads back as the date and the time in the local zone, and the message with a line
-- feed at its end.
pub read_line-output :
    (now : Now) (call : Option (Bytes × ℕ)) (s : Bytes)
    → Fits now.local
    → (bs : Bytes) × (output 3 now call s ≡ some bs)
      × (read_line bs ≡ (record {
        year = now.local.year;
        month = now.local.month;
        day = now.local.day;
        hour = now.local.hour;
        min = now.local.min;
        sec = now.local.sec;
        text = with_newline s;
      }))
unfolding output format_header format_date format_clock has_flag
read_line-output now call s f =
    let t = now.local in
    let (y, ey, ry, ay, ly) = read-itoa t.year (pos 4) f.year_fits (omega arith) in
    let (m, em, rm, am, lm) = read-itoa t.month (pos 2) f.month_fits (omega arith) in
    let (d, ed, rd, ad, ld) = read-itoa t.day (pos 2) f.day_fits (omega arith) in
    let (h, eh, rh, ah, lh) = read-itoa t.hour (pos 2) f.hour_fits (omega arith) in
    let (n, en, rn, an, ln) = read-itoa t.min (pos 2) f.min_fits (omega arith) in
    let (c, ec, rc, ac, lc) = read-itoa t.sec (pos 2) f.sec_fits (omega arith) in
    (
      ((date_bytes y m d [] ++ clock_bytes h n c []) ++ []) ++ with_newline s,
      rw (ey, output, format_header, format_date, format_clock, em, ed, eh, en, ec) refl,
      rw
          (
            joined y m d h n c (with_newline s),
            read-joined y m d h n c (with_newline s) ay am ad ah an ac,
            ry,
            rm,
            rd,
            rh,
            rn,
            rc,
          )
          refl,
    )
