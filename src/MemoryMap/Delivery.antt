-- ===== src/MemoryMap/Delivery.antt =====
-- What detect_memory makes of the answers of the BIOS.
use tinu_os.Prelude.{
  ℕ, zero, suc, ◌+◌, ◌≤◌, ◌<◌, ◌≡◌, refl, sym, ap, ◌∙◌, ◌≢◌, ◌⊎◌, inl, inr, true, false, some, List,
  [], ◌∷◌, map, arith, ltb, ◌==◌, if◌then◌else◌, length, get_or, u8, u32,
}
use mathlib.Core.Path.{subst}
use tinu_os.Bootparam.{e820max}
use tinu_os.Bios.{intcall, Regs, Request, Firmware, carry}
use tinu_os.MemoryMap.{
  Entry, smap, MapParams, store_entry, Scan, kept, keep_entry, scan, e820_request,
  detect_memory_e820, no_memory, detect_memory, start_scan, store_count, error_code,
}

-- How the list of the BIOS ends: with EBX = 0 at the last entry, with the carry flag in the call after it, or
-- with an answer that is not signed.
pub data Ending : Type 0 where
  finished : Ending
  carried : Ending
  unsigned : Ending

abbrev pub request : Regs → Request
request r = record { int_no = 0x15; regs = r }

-- From this call on, the BIOS delivers these entries.
abbrev pub Delivers : Firmware Entry → Regs → List Request → List Entry → Ending → Type 0
Delivers fw r calls [] ending =
    let (oreg, buf) = fw.answer (request r ∷ calls) in
    ((carry fw oreg ≡ true) × (ending ≡ carried))
    ⊎ ((carry fw oreg ≡ false) × (oreg.eax ≢ smap) × (ending ≡ unsigned))
Delivers fw r calls (e ∷ es) ending =
    let (oreg, buf) = fw.answer (request r ∷ calls) in
    (carry fw oreg ≡ false)
    × (oreg.eax ≡ smap)
    × (buf ≡ e)
    × (((oreg.ebx ≡ 0) × (es ≡ []) × (ending ≡ finished))
        ⊎ ((oreg.ebx ≢ 0)
            × Delivers fw (record r { ebx = oreg.ebx }) (request r ∷ calls) es ending))

-- The count for so many entries, from what it was before.
abbrev pub counted : Ending → ℕ → ℕ → ℕ
counted unsigned count n = 0
counted finished count n = u32 (count + n)
counted carried count n = u32 (count + n)

-- The map with the entries from `desc` on.
abbrev pub IsFilled : (ℕ → Entry) → ℕ → List Entry → (ℕ → Entry) → Type 0
IsFilled map desc [] map' = (j : ℕ) → map' j ≡ map j
IsFilled map desc (e ∷ es) map' = IsFilled (store_entry map desc e) (desc + 1) es map'

-- The call of the BIOS in a round.
abbrev reply : Firmware Entry → Scan → Regs × Entry
reply fw s = fw.answer (request s.ireg ∷ s.calls)

abbrev called : Firmware Entry → Scan → Scan
called fw s = record s {
  ireg = record s.ireg { ebx = (reply fw s).0.ebx };
  calls = request s.ireg ∷ s.calls;
}

scan_carried :
    (fw : Firmware Entry) (fuel : ℕ) (s : Scan)
    → carry fw (reply fw s).0 ≡ true
    → scan fw (suc fuel) s ≡ some (called fw s)
unfolding scan intcall
scan_carried fw fuel s c = rw c refl

scan_unsigned :
    (fw : Firmware Entry) (fuel : ℕ) (s : Scan)
    → carry fw (reply fw s).0 ≡ false
    → ((reply fw s).0.eax == smap) ≡ false
    → scan fw (suc fuel) s ≡ some (record (called fw s) { count = 0 })
unfolding scan intcall
scan_unsigned fw fuel s c u = rw (c, u) refl

scan_finished :
    (fw : Firmware Entry) (fuel : ℕ) (s : Scan)
    → carry fw (reply fw s).0 ≡ false
    → ((reply fw s).0.eax == smap) ≡ true
    → ((reply fw s).0.ebx == 0) ≡ true
    → ltb s.desc e820max ≡ true
    → scan fw (suc fuel) s ≡ some (kept (reply fw s).1 (called fw s))
unfolding scan keep_entry intcall
scan_finished fw fuel s c g z room = rw (c, g, z, room) refl

scan_more :
    (fw : Firmware Entry) (fuel : ℕ) (s : Scan)
    → carry fw (reply fw s).0 ≡ false
    → ((reply fw s).0.eax == smap) ≡ true
    → ((reply fw s).0.ebx == 0) ≡ false
    → ltb s.desc e820max ≡ true
    → scan fw (suc fuel) s ≡ scan fw fuel (kept (reply fw s).1 (called fw s))
unfolding scan keep_entry intcall
scan_more fw fuel s c g z room = rw (c, g, z, room) refl

record Scanned (map : ℕ → Entry) (desc count : ℕ) (es : List Entry) (ending : Ending) (s' : Scan)
    : Type 0 where
  filled : IsFilled map desc es s'.map
  total : u32 s'.count ≡ counted ending count (length es)

Scanned-keep_entry :
    (entry e : Entry) (map : ℕ → Entry) (desc count : ℕ) (s' : Scan) (es : List Entry)
    (ending : Ending)
    → entry ≡ e
    → Scanned (store_entry map desc entry) (desc + 1) (u32 (count + 1)) es ending s'
    → Scanned map desc count (e ∷ es) ending s'
Scanned-keep_entry entry e map desc count s' es ending b w = record {
  filled = subst (λ x. IsFilled (store_entry map desc x) (desc + 1) es s'.map) b w.filled;
  total = w.total ∙ recount ending count (length es);
}
  where
    recount :
        (ending : Ending) (count n : ℕ)
        → counted ending (u32 (count + 1)) n ≡ counted ending count (suc n)
    recount finished count n = omega arith
    recount carried count n = omega arith
    recount unsigned count n = refl

Scanned-more :
    (entry e : Entry) (s s' : Scan) (es : List Entry) (ending : Ending)
    → entry ≡ e
    → (let t = kept entry s in Scanned t.map t.desc t.count es ending s')
    → Scanned s.map s.desc s.count (e ∷ es) ending s'
Scanned-more entry e s s' es ending b w =
    Scanned-keep_entry entry e s.map s.desc s.count s' es ending b w

scan_lem :
    (fw : Firmware Entry) (fuel : ℕ) (s : Scan) (es : List Entry) (ending : Ending)
    → length es ≤ fuel
    → s.desc + length es ≤ e820max
    → Delivers fw s.ireg s.calls es ending
    → (s' : Scan) × (scan fw (suc fuel) s ≡ some s') × Scanned s.map s.desc s.count es ending s'
scan_lem fw fuel s [] ending enough room (inl (c, e)) = (
  called fw s,
  scan_carried fw fuel s c,
  rw e (record { filled = λ j. refl; total = omega arith }),
)
scan_lem fw fuel s [] ending enough room (inr (c, u, e)) = (
  record (called fw s) { count = 0 },
  scan_unsigned fw fuel s c (ground arith),
  rw e (record { filled = λ j. refl; total = refl }),
)
scan_lem fw fuel s (e ∷ es) ending enough room (c, g, b, inl (z, n, f)) = (
  kept (reply fw s).1 (called fw s),
  scan_finished fw fuel s c (ground arith) (ground arith) (ground arith),
  rw (n, f)
      (Scanned-keep_entry (reply fw s).1 e s.map s.desc s.count (kept (reply fw s).1 (called fw s))
        [] finished b (record { filled = λ j. refl; total = omega arith })),
)
scan_lem fw (suc fuel) s (e ∷ es) ending enough room (c, g, b, inr (z, d)) =
    let (s', run, w) =
      scan_lem fw fuel (kept (reply fw s).1 (called fw s)) es ending (omega arith) (omega arith)
        d in
    (
      s',
      scan_more fw (suc fuel) s c (ground arith) (ground arith) (ground arith) ∙ run,
      Scanned-more (reply fw s).1 e (called fw s) s' es ending b w,
    )
scan_lem fw zero s (e ∷ es) ending enough room (c, g, b, inr (z, d)) = absurd (omega arith)

IsFilled-before :
    (map : ℕ → Entry) (desc : ℕ) (es : List Entry) (map' : ℕ → Entry)
    → IsFilled map desc es map'
    → (j : ℕ) → j < desc
    → map' j ≡ map j
IsFilled-before map desc [] map' f j h = f j
IsFilled-before map desc (e ∷ es) map' f j h =
    IsFilled-before (store_entry map desc e) (desc + 1) es map' f j (omega arith) ∙ ground arith

IsFilled-at :
    (map : ℕ → Entry) (desc : ℕ) (es : List Entry) (map' : ℕ → Entry)
    → IsFilled map desc es map'
    → (i : ℕ) → map' (desc + i) ≡ get_or es i (map (desc + i))
IsFilled-at map desc [] map' f i = f (desc + i)
IsFilled-at map desc (e ∷ es) map' f zero =
    IsFilled-before (store_entry map desc e) (desc + 1) es map' f (desc + 0) (omega arith)
    ∙ ground arith
IsFilled-at map desc (e ∷ es) map' f (suc i) =
    let there : desc + suc i ≡ desc + 1 + i = omega arith in
    let kept : store_entry map desc e (desc + 1 + i) ≡ map (desc + 1 + i) = ground arith in
    ap map' there
    ∙ IsFilled-at (store_entry map desc e) (desc + 1) es map' f i
    ∙ ap (get_or es i) (kept ∙ sym (ap map there))

detect_memory-scan :
    (fw : Firmware Entry) (fuel buf_address count : ℕ) (p : MapParams) (s : Scan)
    → scan fw fuel (start_scan fw buf_address count p) ≡ some s
    → detect_memory fw fuel buf_address count p
      ≡ some (
        if ltb 0 (u8 s.count) then 0 else no_memory,
        record { e820_map = s.map; e820_entries = u8 s.count; calls = s.calls },
      )
unfolding detect_memory detect_memory_e820
detect_memory-scan fw fuel buf_address count p s run = ap (λ r. error_code (store_count r)) run

-- Whatever list of at most 128 entries the BIOS delivers, and with `desc` taken for a pointer to entries of the map, which
-- it is not declared as: detect_memory ends after at most one round more than there are entries. The entries stand at the
-- start of the map, in order, and the rest of the map is as before. The number of entries is added to what the uninitialised
-- `count` held, or is 0 when the last answer was not signed, and kept in a byte; the call succeeds when that byte is not 0.
pub detect_memory-Delivers :
    (fw : Firmware Entry) (buf_address count : ℕ) (p : MapParams) (es : List Entry)
    (ending : Ending)
    → length es ≤ e820max
    → Delivers fw (e820_request fw buf_address) p.calls es ending
    → (p' : MapParams) × (detect_memory fw (suc (length es)) buf_address count p
        ≡ some (if ltb 0 p'.e820_entries then 0 else no_memory, p'))
      × (p'.e820_entries ≡ u8 (counted ending count (length es)))
      × ((j : ℕ) → p'.e820_map j ≡ get_or es j (p.e820_map j))
detect_memory-Delivers fw buf_address count p es ending few d =
    let start = start_scan fw buf_address count p in
    let (s', run, w) = scan_lem fw (length es) start es ending (omega arith) (omega arith) d in
    (
      record { e820_map = s'.map; e820_entries = u8 s'.count; calls = s'.calls },
      detect_memory-scan fw (suc (length es)) buf_address count p s' run,
      omega (arith, w.total),
      λ j.
          let e : j ≡ 0 + j = omega arith in
          ap s'.map e
          ∙ IsFilled-at p.e820_map 0 es s'.map w.filled j
          ∙ ap (λ i. get_or es j (p.e820_map i)) (sym e),
    )
