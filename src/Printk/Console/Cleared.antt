-- ===== src/Printk/Console/Cleared.antt =====
-- What kprintf of printk.c sends and clears.
use tinu_os.Prelude.{
  ℕ, zero, suc, ◌+◌, ◌-◌, ◌*◌, ◌%◌, ◌≤◌, ◌<◌, bit_and, ◌≡◌, refl, ap, ◌∙◌, ◌≢◌, inl, inr, Bool,
  true, false, ◌&&◌, Option, none, some, List, ◌∷◌, ◌++◌, map, reverse, arith, ltb, leb,
  if◌then◌else◌, ltb→lt, Bool-cases, length, u8, ◌>>=◌,
}
use tinu_os.Texts.{AllBytes}
use tinu_os.Ports.{Trace, output, Device, outb}
use tinu_os.EarlySerial.{io_base, serial_print}
use tinu_os.EarlySerial.Output.{outputs, swapped, serial_print-swapped}
use tinu_os.Printk.{Buffer, plain}
use tinu_os.Printk.Rendering.{Rendered}
use tinu_os.Printk.Reading.{Rendered-AllBytes}
use tinu_os.Printf.{c_text, within, sprintf}
use tinu_os.Printf.Conversions.{until_nul, AllBytes-until_nul, sprintf-Rendered, within-c_text}
use tinu_os.Printk.Console.{Console, putchar, clear_row, clear_rows, hide_cursor, begin_kprintf}

clear_row_lem :
    (left x y k : ℕ) (s : Console)
    → (clear_row left x y s).textmem k
      ≡ (if leb (x + y * 80) k && ltb k (x + left + y * 80) then 0x20 else s.textmem k)
unfolding clear_row putchar
clear_row_lem zero x y k s = ground arith
clear_row_lem (suc left) x y k s =
    clear_row_lem left (x + 1) y k (putchar b' ' x y 0 s) ∙ ground arith

-- Whether the loops write a cell of `left` rows from `y` on.
abbrev in_rows : ℕ → ℕ → ℕ → Bool
in_rows left y k = leb (y * 80) k && (ltb k ((y + left) * 80) && ltb (k % 80) 24)

in_rows_first : (left y k : ℕ) → k < y * 80 + 80 → in_rows left (y + 1) k ≡ false
in_rows_first left y k h = ground arith

in_rows_here :
    (left y k : ℕ)
    → k < y * 80 + 80
    → in_rows (suc left) y k ≡ (leb (0 + y * 80) k && ltb k (0 + 24 + y * 80))
in_rows_here left y k h = elim (Bool-cases (leb (y * 80) k)) [
  | inl there ↦ let e : k % 80 ≡ k - y * 80 = ground arith in rw (there, e) (ground arith)
  | inr before ↦ let e : leb (0 + y * 80) k ≡ false = ground arith in rw (before, e) refl
]

in_rows_later : (left y k : ℕ) → y * 80 + 80 ≤ k → in_rows (suc left) y k ≡ in_rows left (y + 1) k
in_rows_later left y k h =
    let a : leb (y * 80) k ≡ true = ground arith in
    let b : leb ((y + 1) * 80) k ≡ true = ground arith in
    let e : (y + suc left) * 80 ≡ (y + 1 + left) * 80 = omega arith in rw (a, b, e) refl

-- The loops clear the first 24 of every 80 cells.
clear_rows_lem :
    (left y k : ℕ) (s : Console)
    → (clear_rows left y s).textmem k ≡ (
        if leb (y * 80) k && (ltb k ((y + left) * 80) && ltb (k % 80) 24)
        then 0x20
        else s.textmem k)
unfolding clear_rows
clear_rows_lem zero y k s = ground arith
clear_rows_lem (suc left) y k s =
    let row = clear_row_lem 24 0 y k s in
    let rest = clear_rows_lem left (y + 1) k (clear_row 24 0 y s) in
    elim (Bool-cases (ltb k (y * 80 + 80))) [
      | inl here ↦
          let h = ltb→lt k (y * 80 + 80) here in
          rest ∙ rw (in_rows_first left y k h, in_rows_here left y k h) row
      | inr later ↦
          let h : y * 80 + 80 ≤ k = ground arith in
          let skip : (leb (0 + y * 80) k && ltb k (0 + 24 + y * 80)) ≡ false = ground arith in
          rest ∙ rw (in_rows_later left y k h, row, skip) refl
    ]

screen_lem :
    (k : ℕ) (s : Console)
    → (clear_rows 80 0 s).textmem k ≡ (if ltb k 6400 && ltb (k % 80) 24 then 0x20 else s.textmem k)
screen_lem k s = let from : leb 0 k ≡ true = ground arith in clear_rows_lem 80 0 k s ∙ rw from refl

trace-clear_row : (left x y : ℕ) (s : Console) → (clear_row left x y s).trace ≡ s.trace
unfolding clear_row putchar
trace-clear_row zero x y s = refl
trace-clear_row (suc left) x y s = trace-clear_row left (x + 1) y (putchar b' ' x y 0 s)

trace-clear_rows : (left y : ℕ) (s : Console) → (clear_rows left y s).trace ≡ s.trace
unfolding clear_rows
trace-clear_rows zero y s = refl
trace-clear_rows (suc left) y s =
    trace-clear_rows left (y + 1) (clear_row 24 0 y s) ∙ trace-clear_row 24 0 y s

outputs-hide_cursor :
    (t : Trace)
    → outputs (hide_cursor t)
      ≡ output 0xFF 0x3D5 ∷ output 0x0E 0x3D4 ∷ output 0xFF 0x3D5 ∷ output 0x0F 0x3D4 ∷ outputs t
unfolding hide_cursor outb
outputs-hide_cursor t = refl

-- On a port whose register 0x3f8 always answers with bit 5 set, and for every format of bytes, with texts of bytes
-- behind its arguments, 33 rounds and one for each character of the text being given: when the text has at most 1023
-- characters, this part of `kprintf` ends. The text goes to the serial port up to its first NUL, with the arguments of
-- outb swapped; of each 80 cells, in the first 6400 from `textmem` on, the first 24 are cleared, and no other cell is
-- written. A longer text goes past the end of the buffer of 1024 bytes, and there is no result.
pub begin_kprintf_lem :
    (device : Device) (arg : ℕ → ℕ) (text_at : ℕ → List ℕ) (buf : Buffer) (fmt : List ℕ)
    (s : Console)
    → ((h : Trace) → bit_and (u8 (device h 0x3f8)) 0x20 ≢ 0)
    → ((p : ℕ) → AllBytes (text_at p))
    → AllBytes fmt
    → (ds : List ℕ) × Rendered arg text_at plain 0 fmt ds
      × (s' : Console) × (begin_kprintf device arg text_at (33 + length ds) buf fmt s
          ≡ (if ltb (length ds) 1024 then some s' else none))
      × (outputs s'.trace
          ≡ output 0xFF 0x3D5
            ∷ output 0x0E 0x3D4
            ∷ output 0xFF 0x3D5
            ∷ output 0x0F 0x3D4
            ∷ (reverse (map swapped (until_nul ds)) ++ outputs s.trace))
      × ((k : ℕ) → s'.textmem k ≡ (if ltb k 6400 && ltb (k % 80) 24 then 0x20 else s.textmem k))
unfolding begin_kprintf sprintf
begin_kprintf_lem device arg text_at buf fmt s ready bytes h =
    let (b, ds, rendered, run) = sprintf-Rendered arg text_at buf fmt bytes h in
    let (ran, read) = run (33 + length ds) (omega arith) in
    let (t, sent, all) =
      serial_print-swapped device (32 + length ds) io_base (until_nul ds) s.trace ready
        (AllBytes-until_nul ds (Rendered-AllBytes bytes h rendered)) in
    let rounds : 33 + length ds ≡ suc (32 + length ds) = omega arith in
    let one_more = ap (λ (n : ℕ). serial_print device n io_base (until_nul ds) s.trace) rounds in
    let start : Console = record s { trace = hide_cursor t } in
    let after : ℕ → Buffer → List ℕ → Option Console = λ n c cs.
      serial_print device (33 + length ds) io_base cs s.trace >>= λ q.
      some (clear_rows 80 0 (record s { trace = hide_cursor q })) in
    (
      ds,
      rendered,
      clear_rows 80 0 start,
      ap (λ r. r >>= within 1024 >>= λ (n, c). c_text (33 + length ds) c 0 >>= after n c) ran
          ∙ within-c_text 1024 (length ds) (33 + length ds) b (until_nul ds) after read
          ∙ ap
              (λ r.
                if ltb (length ds) 1024
                then (r >>= λ q. some (clear_rows 80 0 (record s { trace = hide_cursor q })))
                else none)
              (one_more ∙ sent),
      ap outputs (trace-clear_rows 80 0 start)
          ∙ outputs-hide_cursor t
          ∙ ap
              (λ q.
                output 0xFF 0x3D5 ∷ output 0x0E 0x3D4 ∷ output 0xFF 0x3D5 ∷ output 0x0F 0x3D4 ∷ q)
              all,
      λ k. screen_lem k start,
    )
