-- ===== src/Printk.antt =====
-- printk.c: formatted output into a buffer. `print_dec` and `print_hex` write numbers, `vasprintf` reads
-- the format. The buffers have no bounds check in the code, so a buffer is a function from indices.
-- The variadic arguments are the words on the stack, by index, and a pointer stands for the text behind it.
pub mod Buffers
pub mod Decimal
pub mod Width
pub mod Hexadecimal
pub mod Rendering
pub mod Reading
pub mod Unique
pub mod Determined
pub mod Console
use tinu_os.Prelude.{
  ℕ, zero, suc, ◌+◌, ◌-◌, ◌*◌, ◌/◌, ◌%◌, ◌^◌, bit_and, Bool, ◌&&◌, Option, none, some, List, [],
  ◌∷◌, ltb, leb, ◌==◌, if◌then◌else◌, u8, u32, ◌>>=◌,
}

abbrev pub Buffer : Type 0
Buffer = ℕ → ℕ

-- `buf` and `*ptr`.
pub record Out : Type 0 where
  pub buf : Buffer
  pub ptr : ℕ

abbrev pub update : Buffer → ℕ → ℕ → Buffer
update b i v j = if j == i then v else b j

abbrev pub uint32_max : ℕ
uint32_max = 0xffff_ffff

-- `buf[ptr++] = c`, a byte.
unfoldable pub put : ℕ → Out → Out
put c o = record { buf = update o.buf o.ptr (u8 c); ptr = o.ptr + 1 }

-- The first loop of `print_dec`: `none` if it has not ended after so many rounds.
unfoldable pub dec_width : ℕ → ℕ → ℕ → ℕ → Option ℕ
dec_width zero va n_width i = none
dec_width (suc fuel) va n_width i =
    let rest = dec_width fuel va (n_width + 1) (u32 (u32 (i * 10) + 9)) in
    if ltb i va && ltb i uint32_max then rest else some n_width

-- The second loop, with the rounds left.
unfoldable pub zeros : ℕ → Out → Out
zeros zero o = o
zeros (suc left) o = zeros left (put b'0' o)

-- The third loop: the last digit goes to the last place.
unfoldable pub dec_digits : ℕ → ℕ → ℕ → Buffer → Buffer
dec_digits zero va p b = b
dec_digits (suc i) va p b = dec_digits i (va / 10) p (update b (p + i) (va % 10 + b'0'))

unfoldable pub print_dec : ℕ → ℕ → ℕ → Out → Option Out
print_dec fuel va arg_width o = elim (dec_width fuel va 1 9) [
  | none ↦ none
  | some n_width ↦
      let o = zeros (arg_width - n_width) o in
      some (record { buf = dec_digits n_width va o.ptr o.buf; ptr = o.ptr + n_width })
]

unfoldable pub hex_width : ℕ → ℕ → ℕ → ℕ → Option ℕ
hex_width zero va n_width j = none
hex_width (suc fuel) va n_width j =
    let rest = hex_width fuel va (n_width + 1) (u32 (u32 (j * 0x10) + 0x0F)) in
    if ltb j va && ltb j uint32_max then rest else some n_width

-- `"0123456789abcdef"[d]`.
unfoldable pub hex_digit : ℕ → ℕ
hex_digit d = if ltb d 10 then d + b'0' else d + b'a' - 10

unfoldable pub hex_digits : ℕ → ℕ → Out → Out
hex_digits zero va o = o
hex_digits (suc i) va o = hex_digits i va (put (hex_digit (bit_and (va / 2 ^ (i * 4)) 0xF)) o)

unfoldable pub print_hex : ℕ → ℕ → ℕ → Out → Option Out
print_hex fuel va arg_width o = elim (hex_width fuel va 1 0x0F) [
  | none ↦ none
  | some n_width ↦
      let i = if arg_width == 0 then 8 else arg_width in
      some (hex_digits n_width va (zeros (i - n_width) o))
]

-- Where `vasprintf` stands in the format: in plain text, or behind a `%` with the width read so far.
pub data Mode : Type 0 where
  plain : Mode
  percent : ℕ → Mode

abbrev pub is_digit : ℕ → Bool
is_digit c = leb b'0' c && leb c b'9'

unfoldable pub put_all : List ℕ → Out → Out
put_all [] o = o
put_all (c ∷ cs) o = put_all cs (put c o)

-- The `switch`, at the argument number `n`: what is written, and the next argument.
unfoldable pub convert : (ℕ → ℕ) → (ℕ → List ℕ) → ℕ → ℕ → ℕ → ℕ → Out → Option (ℕ × Out)
convert arg text_at fuel c width n o =
    if c == b's'
    then some (n + 1, put_all (text_at (arg n)) o)
    else if c == b'c'
    then some (n + 1, put (arg n) o)
    else if c == b'x'
    then elim (print_hex fuel (u32 (arg n)) width o) [ none ↦ none | some o' ↦ some (n + 1, o') ]
    else if c == b'd'
    then elim (print_dec fuel (u32 (arg n)) width o) [ none ↦ none | some o' ↦ some (n + 1, o') ]
    else if c == b'%'
    then some (n, put b'%' o)
    else some (n, put c o)

-- The loop over the format, a character at a time. A format that ends behind a `%` has its NUL converted.
unfoldable pub format : (ℕ → ℕ) → (ℕ → List ℕ) → ℕ → List ℕ → Mode → ℕ → Out → Option Out
format arg text_at fuel [] plain n o = some o
format arg text_at fuel [] (percent w) n o = convert arg text_at fuel 0 w n o >>= λ (m, o'). some o'
format arg text_at fuel (c ∷ cs) plain n o =
    format arg text_at fuel cs (if c == b'%' then percent 0 else plain) n
      (if c == b'%' then o else put c o)
format arg text_at fuel (c ∷ cs) (percent w) n o =
    let more = format arg text_at fuel cs (percent (u32 (w + (c - b'0')))) n o in
    let done =
      convert arg text_at fuel c w n o >>= λ (m, o'). format arg text_at fuel cs plain m o' in
    if is_digit c then more else done

-- `vasprintf` returns the length, and ends the text with a NUL.
unfoldable pub vasprintf : (ℕ → ℕ) → (ℕ → List ℕ) → ℕ → Buffer → List ℕ → Option (ℕ × Buffer)
vasprintf arg text_at fuel buf fmt =
    format arg text_at fuel fmt plain 0 (record { buf = buf; ptr = 0 }) >>= λ o.
    some (o.ptr, update o.buf o.ptr 0)
