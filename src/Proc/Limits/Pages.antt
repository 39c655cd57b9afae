-- ===== src/Proc/Limits/Pages.antt =====
-- The budget of user pages, with several processors between the steps of `user_page_take`.
use onyx_kernel.Prelude.{ℕ, ◌+◌, ◌-◌, ◌^◌, ◌≤◌, ◌≡◌, List, [], ◌∷◌, leb, ◌==◌, if◌then◌else◌, arith}
use onyx_kernel.Proc.Limits.{take_begin, take_rollback, user_pages_release, user_mem_max_pages}

-- The counter, the pages that are granted, and the processors between a refusal and its step back.
pub record Budget : Type 0 where
  pub counter : ℕ
  pub granted : ℕ
  pub refused : ℕ

-- One atomic step of a processor.
pub data Event : Type 0 where
  begin_take : Event
  rollback : Event
  release : ℕ → Event

-- `harts` processors at most take at once. Whatever number of pages is released.
unfoldable pub step : ℕ → Budget → Event → Budget
step harts s begin_take =
    let (granted, v) = take_begin s.counter in
    if leb harts s.refused
    then s
    else if granted
    then record s { counter = v; granted = s.granted + 1 }
    else record s { counter = v; refused = s.refused + 1 }
step harts s rollback =
    if s.refused == 0
    then s
    else record s { counter = take_rollback s.counter; refused = s.refused - 1 }
step harts s (release n) = record s {
  counter = user_pages_release s.counter n;
  granted = s.granted - n;
}

pub steps : ℕ → Budget → List Event → Budget
steps harts s [] = s
steps harts s (e ∷ es) = steps harts (step harts s e) es

-- The counter is exact but for the refusals under way, and the grants keep to the budget.
pub record IsBudget (harts : ℕ) (s : Budget) : Type 0 where
  pub exact : s.counter ≡ s.granted + s.refused
  pub within : s.granted ≤ user_mem_max_pages
  pub under_way : s.refused ≤ harts

-- Only pages that are granted are released.
abbrev pub OnlyGranted : Budget → Event → Type 0
OnlyGranted s begin_take = Unit
OnlyGranted s rollback = Unit
OnlyGranted s (release n) = n ≤ s.granted

abbrev pub AllGranted : ℕ → Budget → List Event → Type 0
AllGranted harts s [] = Unit
AllGranted harts s (e ∷ es) = OnlyGranted s e × AllGranted harts (step harts s e) es

step-IsBudget :
    (harts : ℕ) (s : Budget) (e : Event)
    → harts ≤ 2 ^ 32
    → OnlyGranted s e
    → IsBudget harts s
    → IsBudget harts (step harts s e)
unfolding step take_begin take_rollback user_pages_release
step-IsBudget harts s begin_take h g v = ground (arith, h, v.exact, v.within, v.under_way)
step-IsBudget harts s rollback h g v = ground (arith, h, v.exact, v.within, v.under_way)
step-IsBudget harts s (release n) h g v = ground (arith, h, g, v.exact, v.within, v.under_way)

-- In any interleaving of the steps of several processors in which only granted pages are released, the
-- pages granted keep to the budget, and the counter is the number of them and of the refusals under
-- way.
pub steps-IsBudget :
    (harts : ℕ) (s : Budget) (es : List Event)
    → harts ≤ 2 ^ 32
    → AllGranted harts s es
    → IsBudget harts s
    → IsBudget harts (steps harts s es)
unfolding steps
steps-IsBudget harts s [] h g v = v
steps-IsBudget harts s (e ∷ es) h g v =
    steps-IsBudget harts (step harts s e) es h g.1 (step-IsBudget harts s e h g.0 v)
