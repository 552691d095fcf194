-- ===== src/Ide/Polling.antt =====
-- `ide_polling` of drivers/ide.c.
use tinu_os.Prelude.{
  ℕ, zero, suc, ◌+◌, ◌-◌, ◌≤◌, bit_and, ◌≡◌, refl, ap, ◌∙◌, ◌≢◌, ◌⊎◌, inl, inr, some, List, [], ◌∷◌,
  arith, ◌==◌, if◌then◌else◌, Bool-cases, length, u8, u16,
}
use tinu_os.Ports.{Trace, Device, inb, input}
use tinu_os.Ide.{
  Ide, port, control, ide_read, read_port, status, wait_ready, check_state, delay, ide_polling,
  ata_reg_altstatus,
}

-- The port of the status register.
abbrev pub status_port : ℕ → Ide → ℕ
status_port channel s = u16 ((s.channels channel).base + 7)

-- `s` after the status register has given `v`.
abbrev pub seen : ℕ → ℕ → Ide → Ide
seen channel v s = record s { trace = input v (status_port channel s) ∷ s.trace }

status_lem :
    (device : Device) (channel : ℕ) (s : Ide)
    → let v = u8 (device s.trace (status_port channel s)) in
      status device channel s ≡ (v, seen channel v s)
unfolding status ide_read control read_port port inb
status_lem device channel s =
    let once : u16 (status_port channel s) ≡ status_port channel s = omega arith in rw once refl

-- The port of the alternate status register.
abbrev pub altstatus_port : ℕ → Ide → ℕ
altstatus_port channel s = u16 ((s.channels channel).ctrl + 2)

altstatus_lem :
    (device : Device) (channel : ℕ) (s : Ide)
    → let p = altstatus_port channel s in
      (ide_read device channel ata_reg_altstatus s).1
      ≡ record s { trace = input (u8 (device s.trace p)) p ∷ s.trace }
unfolding ide_read control read_port port inb
altstatus_lem device channel s =
    let p : ℕ = altstatus_port channel s in
    let e : u16 (u16 ((s.channels channel).ctrl + 0x0C - 0x0A)) ≡ p = omega arith in rw e refl

-- What the ports have seen after these bytes have been read from a port, the first one first.
abbrev pub reads : ℕ → List ℕ → Trace → Trace
reads p [] t = t
reads p (v ∷ vs) t = reads p vs (input v p ∷ t)

-- Status bytes with the busy bit.
abbrev pub AllBusy : List ℕ → Type 0
AllBusy [] = Unit
AllBusy (v ∷ vs) = (bit_and v 0x80 ≢ 0) × AllBusy vs

-- The result for a status byte: 2 with the error bit, or else 1 with the fault bit, or else 3 without the request bit, or
-- else 0.
abbrev pub Outcome : ℕ → ℕ → Type 0
Outcome v code =
    ((bit_and v 0x01 ≢ 0) × (code ≡ 2))
    ⊎ (((bit_and v 0x01 ≡ 0) × (bit_and v 0x20 ≢ 0) × (code ≡ 1))
        ⊎ (((bit_and v 0x01 ≡ 0) × (bit_and v 0x20 ≡ 0) × (bit_and v 0x08 ≡ 0) × (code ≡ 3))
            ⊎ ((bit_and v 0x01 ≡ 0) × (bit_and v 0x20 ≡ 0) × (bit_and v 0x08 ≢ 0) × (code ≡ 0))))

check_state-Outcome : (v : ℕ) → Outcome v (check_state v)
unfolding check_state
check_state-Outcome v = elim (Bool-cases (bit_and v 0x01 == 0)) [
  | inr error ↦ inl (ground arith, ground arith)
  | inl fine ↦ elim (Bool-cases (bit_and v 0x20 == 0)) [
    | inr fault ↦ inr (inl (ground arith, ground arith, ground arith))
    | inl works ↦ elim (Bool-cases (bit_and v 0x08 == 0)) [
      | inl silent ↦ inr (inr (inl (ground arith, ground arith, ground arith, ground arith)))
      | inr asks ↦ inr (inr (inr (ground arith, ground arith, ground arith, ground arith)))
    ]
  ]
]

length-reads : (p : ℕ) (vs : List ℕ) (t : Trace) → length (reads p vs t) ≡ length vs + length t
length-reads p [] t = omega arith
length-reads p (v ∷ vs) t = omega (arith, length-reads p vs (input v p ∷ t))

module _ (device : Device) (channel n : ℕ) where
  -- The drive is no longer busy once the ports have seen `n` accesses.
  abbrev pub ReadyAfter : ℕ → Type 0
  ReadyAfter p = (t : Trace) → n ≤ length t → bit_and (u8 (device t p)) 0x80 ≡ 0

  wait_ready_lem :
      (fuel : ℕ) (s : Ide)
      → ReadyAfter (status_port channel s)
      → n ≤ length s.trace + fuel
      → (vs : List ℕ) × let t = reads (status_port channel s) vs s.trace in
          let v = u8 (device t (status_port channel s)) in
          (wait_ready device (suc fuel) channel s
            ≡ some (record s { trace = input v (status_port channel s) ∷ t }))
          × AllBusy vs
          × (bit_and v 0x80 ≡ 0)
  unfolding wait_ready
  wait_ready_lem zero s ready enough =
      let clear = ready s.trace (omega arith) in
      ([], (rw (status_lem device channel s) (ground (arith, clear)), tt, clear))
  wait_ready_lem (suc fuel) s ready enough =
      let v : ℕ = u8 (device s.trace (status_port channel s)) in
      elim (Bool-cases (bit_and v 0x80 == 0)) [
        | inl clear ↦ (
          [],
          (rw (status_lem device channel s) (ground (arith, clear)), tt, ground (arith, clear)),
        )
        | inr busy ↦
            let (vs, (run, all, clear)) =
              wait_ready_lem fuel (seen channel v s) ready (omega arith) in
            (
              v ∷ vs,
              (
                rw (status_lem device channel s) (ground (arith, busy, run)),
                (ground (arith, busy), all),
                clear,
              ),
            )
      ]

  delay_lem :
      (s : Ide)
      → (us : List ℕ) × (delay device channel s
          ≡ record s { trace = reads (altstatus_port channel s) us s.trace })
        × (length us ≡ 4)
  unfolding delay
  delay_lem s =
      let p : ℕ = altstatus_port channel s in
      let read : Ide → Ide = λ r. (ide_read device channel ata_reg_altstatus r).1 in
      let next : Ide → Ide = λ r. record r { trace = input (u8 (device r.trace p)) p ∷ r.trace } in
      let s1 = next s in
      let s2 = next s1 in
      let s3 = next s2 in
      let value : Ide → ℕ = λ r. u8 (device r.trace p) in
      (
        value s ∷ value s1 ∷ value s2 ∷ value s3 ∷ [],
        ap (λ r. read (read (read r))) (altstatus_lem device channel s)
            ∙ ap (λ r. read (read r)) (altstatus_lem device channel s1)
            ∙ ap read (altstatus_lem device channel s2)
            ∙ altstatus_lem device channel s3,
        refl,
      )

  -- If the drive is no longer busy once the ports have seen `n` accesses, `ide_polling` returns within one round
  -- more than there are accesses missing to `n` at first. It has read the alternate status four times, then the
  -- status as long as that had the busy bit, and once without it. The result is 0 without `advanced_check`. With it,
  -- the status is read once more: the result is then 2 if that has the error bit, or else 1 with the fault bit, or
  -- else 3 without the request bit, or else 0.
  pub ide_polling_lem :
      (fuel advanced_check : ℕ) (s : Ide)
      → ReadyAfter (status_port channel s)
      → n ≤ length s.trace + fuel
      → (us : List ℕ) × (vs : List ℕ) × (code : ℕ) × let p = status_port channel s in
          let t = reads p vs (reads (altstatus_port channel s) us s.trace) in
          let v = u8 (device t p) in
          let w = u8 (device (input v p ∷ t) p) in
          (ide_polling device (suc fuel) channel advanced_check s
            ≡ some (
                if advanced_check == 0
                then (0, record s { trace = input v p ∷ t })
                else (code, record s { trace = input w p ∷ input v p ∷ t })))
          × (length us ≡ 4)
          × AllBusy vs
          × (bit_and v 0x80 ≡ 0)
          × Outcome w code
  unfolding ide_polling
  ide_polling_lem fuel advanced_check s ready enough =
      let (us, waited, four) = delay_lem s in
      let p : ℕ = status_port channel s in
      let s' : Ide = record s { trace = reads (altstatus_port channel s) us s.trace } in
      let longer = length-reads (altstatus_port channel s) us s.trace in
      let (vs, (run, all, clear)) = wait_ready_lem fuel s' ready (omega (arith, longer)) in
      let t : Trace = reads p vs s'.trace in
      let v : ℕ = u8 (device t p) in
      let s'' : Ide = record s { trace = input v p ∷ t } in
      let w : ℕ = u8 (device s''.trace p) in
      (
        us,
        vs,
        check_state w,
        (
          ground (arith, waited, run, status_lem device channel s''),
          four,
          all,
          clear,
          check_state-Outcome w,
        ),
      )
