-- ===== src/Rtc/Texts/Printed.antt =====
-- What rtc_print_struct of drivers/rtc/clock.c prints.
use tinu_os.Prelude.{
  ℕ, ◌-◌, ◌≤◌, ◌<◌, ◌≡◌, refl, ap, ◌∙◌, ◌≢◌, true, false, ◌&&◌, ◌||◌, some, List, [], ◌∷◌, ◌++◌,
  arith, ltb, leb, ◌==◌, length, get_or, u32, ◌>>=◌,
}
use tinu_os.Terminal.{Terminal, terminal_write}
use tinu_os.Kprintf.{kprintf}
use tinu_os.Kprintf.Number.{digits_of}
use tinu_os.Kprintf.Rendering.{rendered, converted, is_complete, kprintf_lem}
use tinu_os.Rtc.{Time}
use tinu_os.Rtc.Texts.{
  dates_str, months_str, time_format, Frame, look_up, date_to_text, month_to_text, time_call,
  rtc_print_struct,
}

-- The bytes of a time that is read from the clock.
pub record IsRead (time : Time) : Type 0 where
  pub hour : time.hour < 256
  pub minute : time.minute < 256
  pub second : time.second < 256
  pub century : time.century < 256
  pub year : time.year < 256

abbrev pub hex : ℕ → List ℕ
hex n = digits_of b'x' n

-- "Tue Mar 12:34:56 UTC 2024\n", for the two texts.
abbrev pub line : List ℕ → List ℕ → Time → List ℕ
line weekday month time =
    let date = hex time.century ++ (hex time.year ++ b'\n' ∷ []) in
    let zone = b' ' ∷ (b'U' ∷ (b'T' ∷ (b'C' ∷ (b' ' ∷ date)))) in
    let seconds = b':' ∷ (hex time.second ++ zone) in
    let minutes = b':' ∷ (hex time.minute ++ seconds) in
    weekday ++ b' ' ∷ (month ++ b' ' ∷ (hex time.hour ++ minutes))

-- The choice of the text, when the number needs no warning.
looked_up :
    (texts : List (List ℕ)) (before num : ℕ)
    → before ≤ num
    → num - before < length texts
    → look_up texts before num ≡ some (get_or texts (num - before) [])
unfolding look_up
looked_up texts before num lo hi =
    let inside : (leb before num && ltb (num - before) (length texts)) ≡ true = ground arith in
    rw inside refl

date_to_text_lem :
    (fuel : ℕ) (f : Frame) (num : ℕ) (t : Terminal)
    → 2 ≤ num
    → num ≤ 7
    → date_to_text fuel f num t ≡ some (get_or dates_str (num - 2) [], t)
unfolding date_to_text
date_to_text_lem fuel f num t lo hi =
    let valid : (ltb num 1 || ltb 7 num) ≡ false = ground arith in
    rw (valid, looked_up dates_str 2 num lo (omega arith)) refl

month_to_text_lem :
    (fuel : ℕ) (f : Frame) (num : ℕ) (t : Terminal)
    → 1 ≤ num
    → num ≤ 12
    → month_to_text fuel f num t ≡ some (get_or months_str (num - 1) [], t)
unfolding month_to_text
month_to_text_lem fuel f num t lo hi =
    let valid : (ltb num 1 || ltb 12 num) ≡ false = ground arith in
    rw (valid, looked_up months_str 1 num lo (omega arith)) refl

rendered-line :
    (f : Frame) (weekday month : List ℕ) (time : Time)
    → IsRead time
    → f.weekday_address ≢ 0
    → f.month_address ≢ 0
    → f.weekday_address ≢ f.month_address
    → rendered (time_call f weekday month time) time_format 0 ≡ line weekday month time
unfolding rendered converted
rendered-line f weekday month time read weekday_there month_there apart =
    let first : (f.weekday_address == 0) ≡ false = ground arith in
    let itself : (f.weekday_address == f.weekday_address) ≡ true = ground arith in
    let second : (f.month_address == 0) ≡ false = ground arith in
    let other : (f.month_address == f.weekday_address) ≡ false = ground arith in
    let hour : u32 time.hour ≡ time.hour = omega (arith, read.hour) in
    let minute : u32 time.minute ≡ time.minute = omega (arith, read.minute) in
    let seconds : u32 time.second ≡ time.second = omega (arith, read.second) in
    let century : u32 time.century ≡ time.century = omega (arith, read.century) in
    let year : u32 time.year ≡ time.year = omega (arith, read.year) in
    rw (first, itself, second, other, hour, minute, seconds, century, year) refl

-- For a day of the week from 2 to 7 and a month from 1 to 12, and when all fields are bytes, rtc_print_struct
-- prints one line: the names of the day, counted from Monday as 2, and of the month, the hour, the minute and the
-- second between colons, `UTC`, and the century directly in front of the year, all as hexadecimal digits without
-- zeros in front, so that a minute 5 is one digit and the year 2005 reads 205. The two texts lie at different
-- addresses, which are not NULL.
pub rtc_print_struct_lem :
    (f : Frame) (time : Time) (t : Terminal)
    → IsRead time
    → f.weekday_address ≢ 0
    → f.month_address ≢ 0
    → f.weekday_address ≢ f.month_address
    → 2 ≤ time.day_of_week
    → time.day_of_week ≤ 7
    → 1 ≤ time.month
    → time.month ≤ 12
    → rtc_print_struct 10 f time t
      ≡ some (
          terminal_write
            (line
              (get_or dates_str (time.day_of_week - 2) [])
              (get_or months_str (time.month - 1) [])
              time)
            t)
unfolding rtc_print_struct
rtc_print_struct_lem f time t read weekday_there month_there apart dlo dhi mlo mhi =
    let weekday = get_or dates_str (time.day_of_week - 2) [] in
    let month = get_or months_str (time.month - 1) [] in
    let text = rendered-line f weekday month time read weekday_there month_there apart in
    ap
      (λ r. r >>= λ (d, t'). month_to_text 10 f time.month t' >>= λ (m, t'').
        kprintf 10 (time_call f d m time) time_format t'')
      (date_to_text_lem 10 f time.day_of_week t dlo dhi)
    ∙ ap (λ r. r >>= λ (m, t''). kprintf 10 (time_call f weekday m time) time_format t'')
        (month_to_text_lem 10 f time.month t mlo mhi)
    ∙ kprintf_lem (time_call f weekday month time) time_format t
    ∙ unfold is_complete in ap (λ cs. some (terminal_write cs t)) text
