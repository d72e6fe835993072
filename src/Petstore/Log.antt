-- ===== src/Petstore/Log.antt =====
-- petstore/server/log/log.go: events with attributes, the pool that they come from, and the lines
-- that Println and Printf write to a span.
pub mod Decimal
pub mod Format
pub mod Pool
pub mod Events
use gofordevopsclass.Prelude.{
  ℕ, zero, suc, ◌+◌, ◌-◌, ◌*◌, ◌/◌, ◌%◌, ◌^◌, Bool, true, false, not, ◌&&◌, ◌||◌, if◌then◌else◌,
  leb, ltb, nat_beq, String, string_eq, List, [], ◌∷◌, ◌++◌, Option, none, some, length,
}
use gofordevopsclass.Prelude.Int.{ℤ, pos, negsuc, ltb_ℤ}

-- Text as its bytes.
abbrev pub Bytes : Type 0
Bytes = List ℕ

abbrev pub slash : ℕ
slash = 47

abbrev pub colon : ℕ
colon = 58

-- wid--
abbrev pub pred_ℤ : ℤ → ℤ
pred_ℤ (pos zero) = negsuc 0
pred_ℤ (pos (suc n)) = pos n
pred_ℤ (negsuc n) = negsuc (suc n)

-- The loop of itoa and the digit behind it. `room` is bp, the free bytes of b in front of the next
-- one; none is the panic of an index that has run off its front. `out` is what b holds behind it.
unfoldable pub digits : ℕ → ℕ → ℤ → Bytes → Option Bytes
digits zero i wid out = if leb 10 i || ltb_ℤ (pos 1) wid then none else some ((48 + i) ∷ out)
digits (suc room) i wid out =
    let rest = digits room (i / 10) (pred_ℤ wid) ((48 + (i - i / 10 * 10)) ∷ out) in
    if leb 10 i || ltb_ℤ (pos 1) wid then rest else some ((48 + i) ∷ out)

-- itoa of a number that is not negative: the bytes that are appended to the buffer.
unfoldable pub itoa : ℕ → ℤ → Option Bytes
unfolding digits
itoa i wid = digits 19 i wid []

-- What formatHeader reads of a time.Time: Date, Clock and Nanosecond.
pub record Moment : Type 0 where
  pub year : ℕ
  pub month : ℕ
  pub day : ℕ
  pub hour : ℕ
  pub min : ℕ
  pub sec : ℕ
  pub nanosecond : ℕ

-- A time in the local zone, and as UTC() gives it.
pub record Now : Type 0 where
  pub local : Moment
  pub utc : Moment

-- flag&(1<<k) != 0
unfoldable pub has_flag : ℕ → ℕ → Bool
has_flag k flag = nat_beq (flag / 2 ^ k % 2) 1

-- Bytes that are appended unless something before has panicked.
abbrev pub then_bytes : Option Bytes → Option Bytes → Option Bytes
then_bytes none b = none
then_bytes (some a) none = none
then_bytes (some a) (some b) = some (a ++ b)

-- The date: 2009/01/23 and a space.
unfoldable pub format_date : Moment → Option Bytes
format_date t = then_bytes (itoa t.year (pos 4)) (
    then_bytes (some (slash ∷ [])) (
      then_bytes (itoa t.month (pos 2))
        (then_bytes (some (slash ∷ [])) (then_bytes (itoa t.day (pos 2)) (some (32 ∷ []))))))

-- The microseconds behind a point.
unfoldable pub format_micros : Moment → Option Bytes
format_micros t = then_bytes (some (46 ∷ [])) (itoa (t.nanosecond / 1000) (pos 6))

-- The time, with microseconds if they are asked for, and a space.
unfoldable pub format_clock : ℕ → Moment → Option Bytes
unfolding has_flag format_micros
format_clock flag t = then_bytes (itoa t.hour (pos 2)) (
    then_bytes (some (colon ∷ [])) (
      then_bytes (itoa t.min (pos 2)) (
        then_bytes (some (colon ∷ [])) (
          then_bytes (itoa t.sec (pos 2))
            (then_bytes (if has_flag 2 flag then format_micros t else some []) (some (32 ∷ [])))))))

-- Whether a byte other than the first is a slash.
abbrev pub has_slash : Bytes → Bool
has_slash [] = false
has_slash (c ∷ cs) = nat_beq c slash || has_slash cs

-- The loop from the end to the last slash, but not to a slash at the index 0: a slash is passed
-- over while there is another behind it.
unfoldable pub behind_slash : Bytes → Bytes
behind_slash [] = []
behind_slash (c ∷ cs) =
    let rest = behind_slash cs in
    if has_slash cs then rest else if nat_beq c slash then cs else c ∷ cs

unfoldable pub short_file : Bytes → Bytes
unfolding behind_slash
short_file [] = []
short_file (c ∷ cs) = if has_slash cs then behind_slash cs else c ∷ cs

-- The file and the line number.
unfoldable pub format_file : ℕ → Bytes → ℕ → Option Bytes
unfolding has_flag short_file
format_file flag file line =
    then_bytes (some ((if has_flag 4 flag then short_file file else file) ++ (colon ∷ [])))
      (then_bytes (itoa line (negsuc 0)) (some (colon ∷ 32 ∷ [])))

-- formatHeader.
unfoldable pub format_header : ℕ → Now → Bytes → ℕ → Option Bytes
unfolding has_flag format_date format_clock format_file
format_header flag now file line =
    let t = if has_flag 5 flag then now.utc else now.local in
    then_bytes
      (if has_flag 0 flag || has_flag 1 flag || has_flag 2 flag
        then (then_bytes (if has_flag 0 flag then format_date t else some [])
            (if has_flag 1 flag || has_flag 2 flag then format_clock flag t else some []))
        else some [])
      (if has_flag 4 flag || has_flag 3 flag then format_file flag file line else some [])

abbrev pub ends_line : Bytes → Bool
ends_line [] = false
ends_line (c ∷ []) = nat_beq c 10
ends_line (c ∷ d ∷ cs) = ends_line (d ∷ cs)

-- The file and line that output uses: those of runtime.Caller, or ??? and 0.
abbrev pub caller : Option (Bytes × ℕ) → Bytes × ℕ
caller none = (63 ∷ 63 ∷ 63 ∷ [], 0)
caller (some c) = c

-- output: the text of the event that is added to the span.
unfoldable pub output : ℕ → Now → Option (Bytes × ℕ) → Bytes → Option Bytes
unfolding has_flag format_header
output flag now call s =
    let (file, line) = if has_flag 4 flag || has_flag 3 flag then caller call else ([], 0) in
    then_bytes (format_header flag now file line)
      (some (if nat_beq (length s) 0 || not (ends_line s) then s ++ (10 ∷ []) else s))

-- Println and Printf, for the text that fmt makes of their arguments: the texts of the events on the
-- span afterwards. A span that does not record gets none.
unfoldable pub print :
    (is_recording : Bool) → ℕ → Now → Option (Bytes × ℕ) → Bytes → List Bytes → Option (List Bytes)
unfolding output
print is_recording flag now call s events =
    if is_recording
    then elim (output flag now call s) [ none ↦ none | some t ↦ some (events ++ (t ∷ [])) ]
    else some events
