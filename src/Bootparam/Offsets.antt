-- ===== src/Bootparam/Offsets.antt =====
-- Where the members of the packed structures of main.c lie.
use tinu_os.Prelude.{ℕ, zero, suc, ◌+◌, ◌≤◌, ◌<◌, ◌≡◌, refl, List, [], ◌∷◌, arith, length}
use tinu_os.Bootparam.{
  Field, sizeof, offset, setup_header, boot_params, kbd_status, hdr, loadflags, heap_end_ptr,
}

-- The number of bytes of member number `i`.
abbrev pub bytes_of : List Field → ℕ → ℕ
bytes_of [] i = 0
bytes_of (f ∷ fs) zero = f.bytes
bytes_of (f ∷ fs) (suc i) = bytes_of fs i

-- A member ends where the next one begins, at the latest where the structure does.
pub offset-within :
    (fs : List Field) (i : ℕ) → i < length fs → offset fs i + bytes_of fs i ≤ sizeof fs
unfolding offset sizeof
offset-within [] i h = omega arith
offset-within (f ∷ fs) zero h = omega arith
offset-within (f ∷ fs) (suc i) h = omega (arith, offset-within fs i (omega arith))

pub offset-apart :
    (fs : List Field) (i j : ℕ) → i < j → j < length fs → offset fs i + bytes_of fs i ≤ offset fs j
unfolding offset
offset-apart [] i j h l = omega arith
offset-apart (f ∷ fs) zero zero h l = absurd (omega arith)
offset-apart (f ∷ fs) zero (suc j) h l = omega arith
offset-apart (f ∷ fs) (suc i) zero h l = absurd (omega arith)
offset-apart (f ∷ fs) (suc i) (suc j) h l =
    omega (arith, offset-apart fs i j (omega arith) (omega arith))

pub sizes :
    (sizeof setup_header ≡ 119)
    × (sizeof boot_params ≡ 3109)
    × (offset boot_params hdr ≡ 2576)
    × (offset boot_params kbd_status ≡ 12)
    × (offset setup_header loadflags ≡ 32)
    × (offset setup_header heap_end_ptr ≡ 51)
unfolding boot_params sizeof offset
sizes = (refl, refl, refl, refl, refl, refl)
