-- ===== src/Tests/Paging.antt =====
-- Runs of the page tables over a single free page.
use tinu_os.Prelude.{ℕ, ◌+◌, ◌≡◌, refl, ◌≢◌, inl, none, some, [], ◌∷◌, arith}
use tinu_os.Memory.{load32}
use tinu_os.PageAlloc.{Kmem}
use tinu_os.Paging.{table_slot, pagewalk, map_pages, mappages}
use tinu_os.Paging.Walk.{IsDirectory, Walked, pagewalk-Walked}
use tinu_os.Paging.Ready.{IsReady}
use tinu_os.Paging.Mapping.{mappages_endless}
use tinu_os.Tests.Pages.{one_page, one_page-IsStack}

one_page-IsDirectory : IsDirectory one_page 4096 (8192 ∷ [])
unfolding load32
one_page-IsDirectory = record {
  stack = one_page-IsStack;
  page = record { aligned = omega arith; nonzero = omega arith; small = omega arith };
  apart = (omega arith, tt);
  absent = λ i h. refl;
}

one_page-IsReady : IsReady one_page 4096 100 (8192 ∷ [])
one_page-IsReady = record {
  directory = one_page-IsDirectory;
  outside = (inl (omega arith), (inl (omega arith), tt));
}

pagewalk-Walked_example :
    (k' : Kmem) × (pagewalk 1 4096 0x12345678 one_page ≡ some (table_slot 8192 0x12345678, k'))
    × Walked one_page 4096 0x12345678 8192 [] k'
pagewalk-Walked_example = pagewalk-Walked 0 4096 0x12345678 8192 [] one_page one_page-IsDirectory

mappages_endless_example :
    (k' : Kmem) × (start : ℕ) × (end : ℕ) × IsReady k' 4096 100 []
    × (start ≡ 0x8000_1000)
    × (end ≡ 0x8000_2fff)
    × (start ≢ end)
    × ((rounds : ℕ)
        → mappages 1 (1 + rounds) 100 4096 0x8000_0000 0x2000 0 2 one_page
          ≡ map_pages 1 rounds 100 4096 start end 0 2 k')
    × (mappages 1 1 100 4096 0x8000_0000 0x2000 0 2 one_page ≡ none)
mappages_endless_example =
    mappages_endless 0 100 4096 0x8000_0000 0x2000 0 2 (8192 ∷ []) [] one_page one_page-IsReady
      (omega arith) (omega arith) (omega arith)
