-- ===== src/Tests/Kernel.antt =====
-- The properties of pages, processes and system calls at concrete inputs.
use onyx_kernel.Prelude.{ℕ, ◌<◌, ◌≡◌, refl, true, false, List, [], ◌∷◌, arith}
use onyx_kernel.Mm.Pmm.{Pmm, bm_get, idx_to_pa, alloc, free}
use onyx_kernel.Mm.Pmm.Init.{init}
use onyx_kernel.Mm.Pmm.Bits.{IsPmm}
use onyx_kernel.Mm.Pmm.Alloc.{alloc_lem, free-alloc}
use onyx_kernel.Proc.State.{ready}
use onyx_kernel.Proc.Limits.{Owned, take_begin}
use onyx_kernel.Proc.Limits.Pages.{
  Event, step, AllGranted, Budget, begin_take, rollback, release, IsBudget, steps, steps-IsBudget,
}

-- Ten pages, with the two bytes of the bitmap.
abbrev pages : ℕ → ℕ → Pmm
pages low high = record {
  base = 8192;
  total_pages = 10;
  free_pages = 5;
  bitmap = low ∷ high ∷ [];
  memory = λ a. 7;
}

pages-IsPmm : IsPmm (pages 15 0)
pages-IsPmm = record {
  bytes = (omega arith, (omega arith, tt));
  room = omega arith;
  aligned = omega arith;
}

low_pages-IsPmm : IsPmm (pages 1 2)
low_pages-IsPmm = record {
  bytes = (omega arith, (omega arith, tt));
  room = omega arith;
  aligned = omega arith;
}

alloc_lem_example :
    let q = (alloc (pages 15 0)).1 in
    (4 < 10)
    × (idx_to_pa (pages 15 0) 4 ≡ 24576)
    × (bm_get (pages 15 0) 4 ≡ false)
    × (bm_get q 2 ≡ true)
    × (q.memory 24676 ≡ 0)
    × (q.memory 28672 ≡ 7)
unfolding alloc bm_get
alloc_lem_example = alloc_lem (pages 15 0) 2 100 28672 {pa = 24576} pages-IsPmm (omega arith) refl

free-alloc_example : bm_get (free (alloc (pages 15 0)).1 24576) 4 ≡ bm_get (pages 15 0) 4
unfolding alloc bm_get
free-alloc_example = free-alloc (pages 15 0) 4 {pa = 24576} pages-IsPmm refl

abbrev two_procs : List Owned
two_procs = record { state = ready; uid = 0 } ∷ record { state = ready; uid = 1000 } ∷ []

-- One page is left, and two processors take.
abbrev one_left : Budget
one_left = record { counter = 32767; granted = 32767; refused = 0 }

abbrev events : List Event
events = begin_take ∷ begin_take ∷ release 3 ∷ rollback ∷ []

events-AllGranted : AllGranted 4 one_left events
unfolding step take_begin
events-AllGranted = (tt, (tt, (omega arith, (tt, tt))))

steps-IsBudget_example : IsBudget 4 (steps 4 one_left events)
steps-IsBudget_example =
    steps-IsBudget 4 one_left events (omega arith) events-AllGranted
      (record { exact = omega arith; within = omega arith; under_way = omega arith })

-- A kernel of 4 MiB at the start of 128 MiB of memory.
abbrev booted : Pmm
booted = init 2151677952 2147483648 134217728 (λ a. 7)
