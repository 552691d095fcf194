-- ===== src/RealMode/Sequence.antt =====
-- What `main` of main.c does, from the first to the last call.
use tinu_os.Prelude.{
  ℕ, suc, ◌+◌, ◌≤◌, ◌≡◌, refl, ap, ◌∙◌, true, some, List, ◌∷◌, ltb, if◌then◌else◌, length, get_or,
  u8, ◌>>=◌,
}
use tinu_os.Bootparam.{e820max}
use tinu_os.Bios.{Request, low8}
use tinu_os.Terminal.{Terminal, terminal_write}
use tinu_os.Kprintf.{kprintf}
use tinu_os.Kprintf.Rendering.{rendered, is_complete, kprintf_lem}
use tinu_os.MemoryMap.{Entry, MapParams, e820_request, no_memory, detect_memory}
use tinu_os.MemoryMap.Delivery.{Ending, Delivers, counted, detect_memory-Delivers}
use tinu_os.RealMode.{
  Machine, Boot, loglevel_notice, header_address, greet, first_print, init_heap, find_memory,
  copy_boot_params, keyboard_init, query_bios, main,
}
use tinu_os.RealMode.Parameters.{
  HeadersApart, header_byte, copy_boot_params_lem, first_question, kbd_address, keyboard_init-Asked,
  new_heap_end, init_heap_lem,
}

-- The text that the level of `kprintf` is taken for.
abbrev pub level_text : Machine → List ℕ
level_text m = m.call.text_at loglevel_notice

-- The screen behind it, and the state.
abbrev pub printed : Machine → Boot → Terminal
printed m s =
    terminal_write (rendered m.call (level_text m) 0)
      (record s.terminal { trace = (greet m s).tty.trace })

abbrev pub greeted : Machine → Boot → Boot
greeted m s =
    let s' = greet m s in
    record s' {
      terminal = printed m s;
      tty = record { trace = (printed m s).trace; calls = s'.tty.calls };
    }

first_print-greeted :
    (m : Machine) (s : Boot)
    → is_complete (level_text m) ≡ true
    → first_print m (greet m s) ≡ some (greeted m s)
unfolding first_print greet
first_print-greeted m s complete =
    let screen : Terminal = record s.terminal { trace = (greet m s).tty.trace } in
    let run : kprintf 10 m.call (level_text m) screen ≡ some (printed m s) =
      kprintf_lem m.call (level_text m) screen ∙ rw complete refl in
    ap
      (λ o. o >>= λ t. some (record (greet m s) {
        terminal = t;
        tty = record { trace = t.trace; calls = (greet m s).tty.calls };
      }))
      run

-- The state in which the memory is looked for.
abbrev pub before_memory : Machine → Boot → Boot
before_memory m s = init_heap m (greeted m s)

-- The state behind it.
abbrev found : Boot → MapParams → Boot
found s p = record s {
  e820_map = p.e820_map;
  e820_entries = p.e820_entries;
  tty = record { trace = s.tty.trace; calls = p.calls };
}

-- What `query_bios` leaves alone.
record Kept (s s' : Boot) : Type 0 where
  mem : s'.mem ≡ s.mem
  e820_map : s'.e820_map ≡ s.e820_map
  e820_entries : s'.e820_entries ≡ s.e820_entries
  heap_end : s'.heap_end ≡ s.heap_end
  terminal : s'.terminal ≡ s.terminal

query_bios-Kept : (m : Machine) (s : Boot) → Kept s (query_bios m s)
unfolding query_bios
query_bios-Kept m s = record {
  mem = refl;
  e820_map = refl;
  e820_entries = refl;
  heap_end = refl;
  terminal = refl;
}

keyboard_init-Kept :
    (m : Machine) (s : Boot)
    → let s' = keyboard_init m s in
      (s'.e820_map ≡ s.e820_map)
      × (s'.e820_entries ≡ s.e820_entries)
      × (s'.heap_end ≡ s.heap_end)
      × (s'.terminal ≡ s.terminal)
unfolding keyboard_init
keyboard_init-Kept m s = (refl, refl, refl, refl)

before_memory-Kept :
    (m : Machine) (s : Boot)
    → let s' = before_memory m s in
      (s'.mem ≡ (copy_boot_params m s).mem)
      × (s'.e820_map ≡ s.e820_map)
      × (s'.heap_end ≡ new_heap_end m (greeted m s))
      × (s'.terminal ≡ printed m s)
unfolding greet
before_memory-Kept m s =
    let e = init_heap_lem m (greeted m s) in
    (ap (λ r. r.mem) e, ap (λ r. r.e820_map) e, ap (λ r. r.heap_end) e, ap (λ r. r.terminal) e)

-- The map in which the memory is entered.
abbrev map_before : Machine → Boot → MapParams
map_before m s =
    let b = before_memory m s in
    record { e820_map = b.e820_map; e820_entries = b.e820_entries; calls = b.tty.calls }

main_runs :
    (m : Machine) (fuel code : ℕ) (s : Boot) (p : MapParams)
    → is_complete (level_text m) ≡ true
    → detect_memory m.map_bios fuel m.buf_address m.count (map_before m s) ≡ some (code, p)
    → main m fuel s ≡ some (query_bios m (keyboard_init m (found (before_memory m s) p)))
unfolding main find_memory
main_runs m fuel code s p complete run =
    ap
      (λ o. (o >>= (λ b. find_memory m fuel (init_heap m b))) >>= λ b.
        some (query_bios m (keyboard_init m b)))
      (first_print-greeted m s complete)
    ∙ ap
        (λ o. (o >>= λ (c, q). some (found (before_memory m s) q)) >>= λ b.
          some (query_bios m (keyboard_init m b)))
        run

-- `main` comes to its end when the text that stands at address 6, which `kprintf` takes for its format, has a
-- character behind each `%`, the two `hdr` do not overlap, and the BIOS delivers a list of at most 128 memory
-- ranges, of which `desc` of detect_memory, not declared so, is taken to step from one to the next; one round more
-- than the list has entries is enough. Then `boot_params` has the bytes of `hdr`, the shift flags that the BIOS
-- answered with, and the ranges in order; `e820_entries` is a byte of the sum of their number and what the
-- uninitialised `count` held, or 0 when the last answer was not signed; `heap_end` is that of the header, if the
-- loader allows a heap, and otherwise as before; and the screen has the text that was taken for a format, not the
-- one that was meant.
pub main_lem :
    (m : Machine) (s : Boot) (es : List Entry) (ending : Ending)
    → is_complete (level_text m) ≡ true
    → HeadersApart m
    → length es ≤ e820max
    → Delivers m.map_bios
        (e820_request m.map_bios m.buf_address)
        (before_memory m s).tty.calls
        es
        ending
    → (s' : Boot) × (calls : List Request) × (main m (suc (length es)) s ≡ some s')
      × ((x : ℕ) → s'.mem (header_address m + x) ≡ header_byte m s.mem x)
      × (s'.mem (kbd_address m) ≡ low8 (m.bios.answer (first_question m ∷ calls)).0.eax)
      × ((j : ℕ) → s'.e820_map j ≡ get_or es j (s.e820_map j))
      × (s'.e820_entries ≡ u8 (counted ending m.count (length es)))
      × (s'.heap_end ≡ new_heap_end m (greeted m s))
      × (s'.terminal ≡ printed m s)
main_lem m s es ending complete apart few delivers =
    let before = before_memory-Kept m s in
    let (p, run, entries, filled) =
      detect_memory-Delivers m.map_bios m.buf_address m.count (map_before m s) es ending few
        delivers in
    let b : Boot = found (before_memory m s) p in
    let asked = keyboard_init-Asked m b in
    let kept = keyboard_init-Kept m b in
    let last = query_bios-Kept m (keyboard_init m b) in
    (
      query_bios m (keyboard_init m b),
      p.calls,
      main_runs m (suc (length es)) (if ltb 0 p.e820_entries then 0 else no_memory) s p complete
          run,
      λ x.
          ap (λ mem. mem (header_address m + x)) last.mem
          ∙ asked.others x
          ∙ ap (λ mem. mem (header_address m + x)) before.0
          ∙ copy_boot_params_lem m s x apart,
      ap (λ mem. mem (kbd_address m)) last.mem ∙ asked.status,
      λ j. ap (λ q. q j) (last.e820_map ∙ kept.0) ∙ filled j ∙ ap (λ q. get_or es j (q j)) before.1,
      last.e820_entries ∙ kept.1 ∙ entries,
      last.heap_end ∙ kept.2 ∙ before.2,
      last.terminal ∙ kept.3 ∙ before.3,
    )
