-- ===== src/Rtc/Texts.antt =====
-- drivers/rtc/clock.c: the time in words, on the screen.
pub mod Printed
use tinu_os.Prelude.{
  ℕ, ◌-◌, ◌&&◌, ◌||◌, Option, none, some, List, [], ◌∷◌, ltb, leb, ◌==◌, if◌then◌else◌, length,
  get_or, ◌>>=◌,
}
use tinu_os.Terminal.{Cells, Terminal}
use tinu_os.Kprintf.{Call, kprintf}
use tinu_os.Rtc.{Time}

abbrev pub dates_str : List (List ℕ)
dates_str =
    (b'M' ∷ b'o' ∷ b'n' ∷ [])
    ∷ (b'T' ∷ b'u' ∷ b'e' ∷ [])
    ∷ (b'W' ∷ b'e' ∷ b'd' ∷ [])
    ∷ (b'T' ∷ b'h' ∷ b'u' ∷ [])
    ∷ (b'F' ∷ b'r' ∷ b'i' ∷ [])
    ∷ (b'S' ∷ b'a' ∷ b't' ∷ [])
    ∷ (b'S' ∷ b'u' ∷ b'n' ∷ [])
    ∷ []

abbrev pub months_str : List (List ℕ)
months_str =
    (b'J' ∷ b'a' ∷ b'n' ∷ [])
    ∷ (b'F' ∷ b'e' ∷ b'b' ∷ [])
    ∷ (b'M' ∷ b'a' ∷ b'r' ∷ [])
    ∷ (b'A' ∷ b'p' ∷ b'r' ∷ [])
    ∷ (b'M' ∷ b'a' ∷ b'y' ∷ [])
    ∷ (b'J' ∷ b'u' ∷ b'n' ∷ [])
    ∷ (b'J' ∷ b'u' ∷ b'l' ∷ [])
    ∷ (b'A' ∷ b'u' ∷ b'g' ∷ [])
    ∷ (b'S' ∷ b'e' ∷ b'p' ∷ b't' ∷ [])
    ∷ (b'O' ∷ b'c' ∷ b't' ∷ [])
    ∷ (b'N' ∷ b'o' ∷ b'v' ∷ [])
    ∷ (b'D' ∷ b'e' ∷ b'c' ∷ [])
    ∷ []

-- "Invalid Week" and "Invalid Month".
abbrev pub invalid_week : List ℕ
invalid_week =
    b'I' ∷ b'n' ∷ b'v' ∷ b'a' ∷ b'l' ∷ b'i' ∷ b'd' ∷ b' ' ∷ b'W' ∷ b'e' ∷ b'e' ∷ b'k' ∷ []

abbrev pub invalid_month : List ℕ
invalid_month =
    b'I' ∷ b'n' ∷ b'v' ∷ b'a' ∷ b'l' ∷ b'i' ∷ b'd' ∷ b' ' ∷ b'M' ∷ b'o' ∷ b'n' ∷ b't' ∷ b'h' ∷ []

-- `"%s %s %x:%x:%x UTC %x%x\n"`
abbrev pub time_format : List ℕ
time_format =
    b'%' ∷ b's' ∷ b' ' ∷ b'%' ∷ b's' ∷ b' ' ∷ b'%' ∷ b'x' ∷ b':' ∷ b'%' ∷ b'x' ∷ b':' ∷ b'%' ∷ b'x'
    ∷ b' ' ∷ b'U' ∷ b'T' ∷ b'C' ∷ b' ' ∷ b'%' ∷ b'x' ∷ b'%' ∷ b'x' ∷ b'\n' ∷ []

-- What the stack holds in the calls of `kprintf`: where the two texts are, and the buffer for numbers.
pub record Frame : Type 0 where
  pub weekday_address : ℕ
  pub month_address : ℕ
  pub buf : Cells

-- A text of an array, or nothing when the index leads out of it, `before` places in front of the number.
unfoldable pub look_up : List (List ℕ) → ℕ → ℕ → Option (List ℕ)
look_up texts before num =
    if leb before num && ltb (num - before) (length texts)
    then some (get_or texts (num - before) [])
    else none

-- A call without arguments.
abbrev pub no_arguments : Frame → Call
no_arguments f = record { arg = λ _. 0; text_at = λ _. []; buf = f.buf }

unfoldable pub date_to_text : ℕ → Frame → ℕ → Terminal → Option (List ℕ × Terminal)
unfolding look_up
date_to_text fuel f num t =
    let warned = kprintf fuel (no_arguments f) invalid_week t in
    (if ltb num 1 || ltb 7 num then warned else some t) >>= λ t'.
    look_up dates_str 2 num >>= λ date. some (date, t')

unfoldable pub month_to_text : ℕ → Frame → ℕ → Terminal → Option (List ℕ × Terminal)
unfolding look_up
month_to_text fuel f num t =
    let warned = kprintf fuel (no_arguments f) invalid_month t in
    (if ltb num 1 || ltb 12 num then warned else some t) >>= λ t'.
    look_up months_str 1 num >>= λ month. some (month, t')

-- The arguments of the last call, in order.
abbrev pub time_call : Frame → List ℕ → List ℕ → Time → Call
time_call f weekday month time = record {
  arg = get_argument;
  text_at = λ w. if w == f.weekday_address then weekday else month;
  buf = f.buf;
}
  where
    get_argument : ℕ → ℕ
    get_argument n =
        get_or
          (f.weekday_address ∷ f.month_address ∷ time.hour ∷ time.minute ∷ time.second
            ∷ time.century ∷ time.year ∷ [])
          n 0

unfoldable pub rtc_print_struct : ℕ → Frame → Time → Terminal → Option Terminal
unfolding date_to_text month_to_text
rtc_print_struct fuel f time t = date_to_text fuel f time.day_of_week t >>= λ (weekday, t').
    month_to_text fuel f time.month t' >>= λ (month, t'').
    kprintf fuel (time_call f weekday month time) time_format t''
