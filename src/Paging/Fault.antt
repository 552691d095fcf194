-- ===== src/Paging/Fault.antt =====
-- mmu/mmu.c: page_fault, which prints what the processor says about an access.
use tinu_os.Prelude.{
  ℕ, bit_and, ◌≡◌, refl, ◌∙◌, Bool, true, false, not, Option, some, List, [], ◌∷◌, ◌==◌, ◌>>=◌,
}
use tinu_os.Terminal.{Cells, Terminal, terminal_write_hex}
use tinu_os.Kprintf.{kprintf}
use tinu_os.Kprintf.Rendering.{rendered, is_complete, kprintf_lem}
use tinu_os.Terminal.{terminal_write}

-- A call of kprintf without arguments.
abbrev pub say : ℕ → Cells → List ℕ → Terminal → Option Terminal
say fuel buf fmt t = kprintf fuel (record { arg = λ _. 0; text_at = λ _. []; buf = buf }) fmt t

-- "Page Fault! ( ", "present ", "read-only ", "user-mode " and ") at 0x".
abbrev pub page_fault_text : List ℕ
page_fault_text =
    b'P' ∷ b'a' ∷ b'g' ∷ b'e' ∷ b' ' ∷ b'F' ∷ b'a' ∷ b'u' ∷ b'l' ∷ b't' ∷ b'!' ∷ b' ' ∷ b'(' ∷ b' '
    ∷ []

abbrev pub present_text : List ℕ
present_text = b'p' ∷ b'r' ∷ b'e' ∷ b's' ∷ b'e' ∷ b'n' ∷ b't' ∷ b' ' ∷ []

abbrev pub read_only_text : List ℕ
read_only_text = b'r' ∷ b'e' ∷ b'a' ∷ b'd' ∷ b'-' ∷ b'o' ∷ b'n' ∷ b'l' ∷ b'y' ∷ b' ' ∷ []

abbrev pub user_mode_text : List ℕ
user_mode_text = b'u' ∷ b's' ∷ b'e' ∷ b'r' ∷ b'-' ∷ b'm' ∷ b'o' ∷ b'd' ∷ b'e' ∷ b' ' ∷ []

abbrev pub at_text : List ℕ
at_text = b')' ∷ b' ' ∷ b'a' ∷ b't' ∷ b' ' ∷ b'0' ∷ b'x' ∷ []

abbrev pub say_if : Bool → ℕ → Cells → List ℕ → Terminal → Option Terminal
say_if true fuel buf fmt t = say fuel buf fmt t
say_if false fuel buf fmt t = some t

-- Up to `die()`, for the error code in `regs` and the address in CR2. `id` is not used.
unfoldable pub page_fault : ℕ → Cells → ℕ → ℕ → Terminal → Option Terminal
page_fault fuel buf err_code faulting_address t =
    say fuel buf page_fault_text t
    >>= say_if (bit_and err_code 0x1 == 0) fuel buf present_text
    >>= say_if (not (bit_and err_code 0x2 == 0)) fuel buf read_only_text
    >>= say_if (not (bit_and err_code 0x8 == 0)) fuel buf user_mode_text
    >>= say fuel buf at_text
    >>= λ t. say fuel buf (b'\n' ∷ []) (terminal_write_hex faulting_address t)

say_lem :
    (buf : Cells) (fmt : List ℕ) (t : Terminal)
    → is_complete fmt ≡ true
    → rendered (record { arg = λ _. 0; text_at = λ _. []; buf = buf }) fmt 0 ≡ fmt
    → say 10 buf fmt t ≡ some (terminal_write fmt t)
say_lem buf fmt t complete same =
    kprintf_lem (record { arg = λ _. 0; text_at = λ _. []; buf = buf }) fmt t
    ∙ rw (complete, same) refl

-- What is printed if a bit is so.
abbrev pub when : Bool → List ℕ → List ℕ
when true cs = cs
when false cs = []

say_if_lem :
    (b : Bool) (buf : Cells) (fmt : List ℕ) (t : Terminal)
    → is_complete fmt ≡ true
    → rendered (record { arg = λ _. 0; text_at = λ _. []; buf = buf }) fmt 0 ≡ fmt
    → say_if b 10 buf fmt t ≡ some (terminal_write (when b fmt) t)
unfolding terminal_write
say_if_lem true buf fmt t complete same = say_lem buf fmt t complete same
say_if_lem false buf fmt t complete same = refl

-- page_fault prints the address in CR2 behind the words for the bits of the error code: `present` for a clear
-- bit 0, `read-only` for bit 1 and `user-mode` for bit 3.
pub page_fault_lem :
    (buf : Cells) (err_code faulting_address : ℕ) (t : Terminal)
    → page_fault 10 buf err_code faulting_address t ≡ (
        let t = terminal_write page_fault_text t in
        let t = terminal_write (when (bit_and err_code 0x1 == 0) present_text) t in
        let t = terminal_write (when (not (bit_and err_code 0x2 == 0)) read_only_text) t in
        let t = terminal_write (when (not (bit_and err_code 0x8 == 0)) user_mode_text) t in
        let t = terminal_write_hex faulting_address (terminal_write at_text t) in
        some (terminal_write (b'\n' ∷ []) t))
unfolding page_fault is_complete rendered
page_fault_lem buf err_code faulting_address t =
    let t1 = terminal_write page_fault_text t in
    let t2 = terminal_write (when (bit_and err_code 0x1 == 0) present_text) t1 in
    let t3 = terminal_write (when (not (bit_and err_code 0x2 == 0)) read_only_text) t2 in
    let t4 = terminal_write (when (not (bit_and err_code 0x8 == 0)) user_mode_text) t3 in
    let t5 = terminal_write_hex faulting_address (terminal_write at_text t4) in
    rw
      (
        say_lem buf page_fault_text t refl refl,
        say_if_lem (bit_and err_code 0x1 == 0) buf present_text t1 refl refl,
        say_if_lem (not (bit_and err_code 0x2 == 0)) buf read_only_text t2 refl refl,
        say_if_lem (not (bit_and err_code 0x8 == 0)) buf user_mode_text t3 refl refl,
        say_lem buf at_text t4 refl refl,
      )
      (say_lem buf (b'\n' ∷ []) t5 refl refl)
