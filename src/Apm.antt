-- ===== src/Apm.antt =====
-- apm.c: the power management of the BIOS, through INT 15h.
use tinu_os.Prelude.{
  ℕ, ◌≡◌, refl, ap, ◌≢◌, Bool, true, false, Option, none, some, List, [], ◌∷◌, arith, ◌==◌,
  if◌then◌else◌,
}
use tinu_os.Bios.{Regs, Request, Firmware, initregs, intcall, low16, set_high8, set_low8}

-- `-1`.
abbrev pub failure : ℕ
failure = 0xffff_ffff

-- Behind the three tests: disconnect, then connect. The function ends without a value.
unfoldable pub connect : Firmware Unit → Regs → List Request → Option ℕ × List Request
connect fw ireg calls =
    let ireg = record ireg { eax = set_low8 ireg.eax 0x04 } in
    let (_, _, calls) = intcall fw 0x15 ireg calls in
    let ireg = record ireg { eax = set_low8 ireg.eax 0x03 } in
    let (_, _, calls) = intcall fw 0x15 ireg calls in (none, calls)

-- The value that is returned, if there is one, and the calls.
unfoldable pub query_apm_bios : Firmware Unit → List Request → Option ℕ × List Request
unfolding connect
query_apm_bios fw calls =
    let ireg = initregs fw in
    let ireg = record ireg { eax = set_high8 ireg.eax 0x53 } in
    let (oreg, _, calls) = intcall fw 0x15 ireg calls in
    if oreg.eflags == fw.carry_flag
    then (some failure, calls)
    else if low16 oreg.ebx == 0x504d
    then (some failure, calls)
    else if low16 oreg.ecx == 0x02
    then (some failure, calls)
    else connect fw ireg calls

-- The function and subfunction, AX, of the calls of INT 15h, the last one first.
abbrev pub functions : List Request → List ℕ
functions [] = []
functions (r ∷ rs) = low16 r.regs.eax ∷ functions rs

-- The answer to the installation check.
abbrev pub checked : Firmware Unit → List Request → Regs
checked fw calls =
    let ireg = initregs fw in
    (fw.answer
      (record { int_no = 0x15; regs = record ireg { eax = set_high8 ireg.eax 0x53 } } ∷ calls)).0

refused :
    (a b c : Bool) (x y : Option ℕ × List Request)
    → b ≡ true
    → (if a then x else if b then x else if c then x else y) ≡ x
refused true b c x y h = refl
refused false b c x y h = rw h refl

accepted :
    (a b c : Bool) (x y : Option ℕ × List Request)
    → a ≡ false
    → b ≡ false
    → c ≡ false
    → (if a then x else if b then x else if c then x else y) ≡ y
accepted a b c x y ha hb hc = rw (ha, hb, hc) refl

-- The call of the installation check, and those that connect.
abbrev check : Firmware Unit → ℕ → Request
check fw ax = let ireg = initregs fw in record { int_no = 0x15; regs = record ireg { eax = ax } }

query_present :
    (fw : Firmware Unit) (calls : List Request)
    → low16 (checked fw calls).ebx ≡ 0x504d
    → query_apm_bios fw calls ≡ (some failure, check fw 0x5300 ∷ calls)
unfolding query_apm_bios intcall initregs set_high8
query_present fw calls signature =
    refused ((checked fw calls).eflags == fw.carry_flag) (low16 (checked fw calls).ebx == 0x504d)
      (low16 (checked fw calls).ecx == 2) (some failure, check fw 0x5300 ∷ calls)
      (connect fw (check fw 0x5300).regs (check fw 0x5300 ∷ calls)) (ground arith)

query_absent :
    (fw : Firmware Unit) (calls : List Request)
    → low16 (checked fw calls).ebx ≢ 0x504d
    → (checked fw calls).eflags ≢ fw.carry_flag
    → low16 (checked fw calls).ecx ≢ 2
    → query_apm_bios fw calls ≡ (none, check fw 0x5303 ∷ check fw 0x5304 ∷ check fw 0x5300 ∷ calls)
unfolding query_apm_bios connect intcall initregs set_high8 set_low8
query_absent fw calls signature flags mode =
    accepted ((checked fw calls).eflags == fw.carry_flag) (low16 (checked fw calls).ebx == 0x504d)
      (low16 (checked fw calls).ecx == 2) (some failure, check fw 0x5300 ∷ calls)
      (none, check fw 0x5303 ∷ check fw 0x5304 ∷ check fw 0x5300 ∷ calls) (ground arith)
      (ground arith) (ground arith)

-- A BIOS that answers the installation check with the signature "PM" is refused: query_apm_bios returns -1 after
-- that one call, AX = 5300h. Any other answer leads to the calls 5304h and 5303h, which disconnect and connect,
-- when the carry flag is not the only flag set and CX is not 2; then the function ends without a value.
pub query_apm_bios_lem :
    (fw : Firmware Unit) (calls : List Request)
    → ((low16 (checked fw calls).ebx ≡ 0x504d)
        → ((query_apm_bios fw calls).0 ≡ some failure)
          × (functions (query_apm_bios fw calls).1 ≡ 0x5300 ∷ functions calls))
      × ((low16 (checked fw calls).ebx ≢ 0x504d)
          → (checked fw calls).eflags ≢ fw.carry_flag
          → low16 (checked fw calls).ecx ≢ 2
          → ((query_apm_bios fw calls).0 ≡ none)
            × (functions (query_apm_bios fw calls).1 ≡ 0x5303 ∷ 0x5304 ∷ 0x5300 ∷ functions calls))
unfolding low16
query_apm_bios_lem fw calls = (
  λ signature.
      let run = query_present fw calls signature in
      (ap (λ r. r.0) run, ap (λ r. functions r.1) run),
  λ signature flags mode.
      let run = query_absent fw calls signature flags mode in
      (ap (λ r. r.0) run, ap (λ r. functions r.1) run),
)
