-- ===== src/Printf.antt =====
-- printf.c: sprintf and printf, around vasprintf of printk.c and puts of devices/tty.c.
-- `none` is a loop that has not ended within its rounds, or a text that goes past the end of a buffer, behind which
-- the behaviour of the code is not defined.
pub mod Conversions
use tinu_os.Prelude.{
  ℕ, zero, suc, ◌+◌, Option, none, some, List, [], ◌∷◌, ltb, ◌==◌, if◌then◌else◌, ◌>>=◌,
}
use tinu_os.Ports.{Device}
use tinu_os.Bios.{Firmware}
use tinu_os.Printk.{Buffer, vasprintf}
use tinu_os.Tty.{Tty, puts}

-- The text in a buffer, up to its NUL, as `puts` walks over it.
unfoldable pub c_text : ℕ → Buffer → ℕ → Option (List ℕ)
c_text zero b p = none
c_text (suc fuel) b p =
    let rest = c_text fuel b (p + 1) >>= λ cs. some (b p ∷ cs) in if b p == 0 then some [] else rest

unfoldable pub sprintf : (ℕ → ℕ) → (ℕ → List ℕ) → ℕ → Buffer → List ℕ → Option (ℕ × Buffer)
sprintf arg text_at fuel buf fmt = vasprintf arg text_at fuel buf fmt

-- What `vasprintf` has written, when it goes with its NUL into a buffer of `size` bytes.
unfoldable pub within : ℕ → ℕ × Buffer → Option (ℕ × Buffer)
within size (n, b) = if ltb n size then some (n, b) else none

-- `buf` is what the stack holds.
unfoldable pub printf :
    Firmware Unit → Device → (ℕ → ℕ) → (ℕ → List ℕ) → ℕ → Buffer → List ℕ → Tty → Option (ℕ × Tty)
unfolding c_text within
printf fw device arg text_at fuel buf fmt s =
    vasprintf arg text_at fuel buf fmt >>= within 1024 >>= λ (printed, b).
    c_text fuel b 0 >>= λ cs. some (printed, puts fw device cs s)
