-- ===== src/Fs/OnyxFs/Journal/Redo.antt =====
-- Fs/OnyxFs/Journal: what a list of slots does to one block.
use onyx_kernel.Prelude.{
  ℕ, zero, suc, ◌≡◌, refl, sym, ap, subst, ◌∙◌, Bool, true, false, Option, none, some, List, [],
  ◌∷◌, ◌++◌, length, take, drop, drop-append_self, All, ◌==◌, if◌then◌else◌, Option-cases, inl, inr,
}
use onyx_kernel.Fs.OnyxFs.Journal.{journal_data_size}

-- A slot that is empty, or the data for a block.
abbrev pub Slot : Type 0
Slot = Option (ℕ × List ℕ)

-- What the slots write to the block `b`, in order, where it holds `bytes`.
abbrev pub redo : List Slot → ℕ → List ℕ → List ℕ
redo [] b bytes = bytes
redo (none ∷ slots) b bytes = redo slots b bytes
redo (some (c, new) ∷ slots) b bytes =
    redo slots b (if c == b then new ++ drop (length new) bytes else bytes)

-- Data of a journal entry.
abbrev pub IsData : Slot → Type 0
IsData none = Unit
IsData (some (c, new)) = length new ≡ journal_data_size

abbrev later : Option (List ℕ) → Bool → List ℕ → Option (List ℕ)
later (some d) here new = some d
later none true new = some new
later none false new = none

-- The data that the slots leave last in a block, laid over what it held.
abbrev last_data : List Slot → ℕ → Option (List ℕ)
last_data [] b = none
last_data (none ∷ slots) b = last_data slots b
last_data (some (c, new) ∷ slots) b = later (last_data slots b) (c == b) new

abbrev lay : Option (List ℕ) → List ℕ → List ℕ
lay none bytes = bytes
lay (some new) bytes = new ++ drop (length new) bytes

abbrev HasSize : Option (List ℕ) → Type 0
HasSize none = Unit
HasSize (some new) = length new ≡ journal_data_size

later-HasSize :
    (o : Option (List ℕ)) (here : Bool) (new : List ℕ)
    → HasSize o
    → length new ≡ journal_data_size
    → HasSize (later o here new)
later-HasSize (some d) here new h e = h
later-HasSize none true new h e = e
later-HasSize none false new h e = tt

last_data-HasSize : (slots : List Slot) (b : ℕ) → All IsData slots → HasSize (last_data slots b)
last_data-HasSize [] b h = tt
last_data-HasSize (none ∷ slots) b h = last_data-HasSize slots b h.1
last_data-HasSize (some (c, new) ∷ slots) b h =
    later-HasSize (last_data slots b) (c == b) new (last_data-HasSize slots b h.1) h.0

lay-lay :
    (o : Option (List ℕ)) (new bytes : List ℕ)
    → HasSize o
    → length new ≡ journal_data_size
    → lay (some new) (lay o bytes) ≡ lay (some new) bytes
lay-lay none new bytes h e = refl
lay-lay (some old) new bytes h e =
    ap (λ t. new ++ t)
      (ap (λ k. drop k (old ++ drop (length old) bytes)) (e ∙ sym h)
        ∙ drop-append_self old (drop (length old) bytes)
        ∙ ap (λ k. drop k bytes) (h ∙ sym e))

lay-later :
    (o : Option (List ℕ)) (here : Bool) (new bytes : List ℕ)
    → HasSize o
    → length new ≡ journal_data_size
    → lay o (if here then new ++ drop (length new) bytes else bytes) ≡ lay (later o here new) bytes
lay-later none true new bytes h e = refl
lay-later none false new bytes h e = refl
lay-later (some d) true new bytes h e = lay-lay (some new) d bytes e h
lay-later (some d) false new bytes h e = refl

-- The slots' effect on a block is that of the last data for it.
redo-lay :
    (slots : List Slot) (b : ℕ) (bytes : List ℕ)
    → All IsData slots
    → redo slots b bytes ≡ lay (last_data slots b) bytes
redo-lay [] b bytes h = refl
redo-lay (none ∷ slots) b bytes h = redo-lay slots b bytes h.1
redo-lay (some (c, new) ∷ slots) b bytes h =
    redo-lay slots b (if c == b then new ++ drop (length new) bytes else bytes) h.1
    ∙ lay-later (last_data slots b) (c == b) new bytes (last_data-HasSize slots b h.1) h.0

earlier_none :
    (o : Option (List ℕ)) (here : Bool) (new : List ℕ)
    → later o here new ≡ none
    → (o ≡ none) × (here ≡ false)
earlier_none (some d) here new e = absurd (cc)
earlier_none none true new e = absurd (cc)
earlier_none none false new e = (refl, refl)

last_data-take :
    (m : ℕ) (slots : List Slot) (b : ℕ)
    → last_data slots b ≡ none
    → last_data (take m slots) b ≡ none
last_data-take zero slots b e = refl
last_data-take (suc m) [] b e = refl
last_data-take (suc m) (none ∷ slots) b e = last_data-take m slots b e
last_data-take (suc m) (some (c, new) ∷ slots) b e =
    let rest = earlier_none (last_data slots b) (c == b) new e in
    rw (last_data-take m slots b rest.0, rest.1) refl

last_data-drop :
    (m : ℕ) (slots : List Slot) (b : ℕ) (d : List ℕ)
    → last_data (drop m slots) b ≡ some d
    → last_data slots b ≡ some d
last_data-drop zero slots b d e = e
last_data-drop (suc m) [] b d e = e
last_data-drop (suc m) (none ∷ slots) b d e = last_data-drop m slots b d e
last_data-drop (suc m) (some (c, new) ∷ slots) b d e = rw (last_data-drop m slots b d e) refl

pub All-take : (m : ℕ) (slots : List Slot) → All IsData slots → All IsData (take m slots)
All-take zero slots h = tt
All-take (suc m) [] h = tt
All-take (suc m) (s ∷ slots) h = (h.0, All-take m slots h.1)

pub All-drop : (m : ℕ) (slots : List Slot) → All IsData slots → All IsData (drop m slots)
All-drop zero slots h = h
All-drop (suc m) [] h = tt
All-drop (suc m) (s ∷ slots) h = All-drop m slots h.1

-- Replaying again after a replay that was cut short changes nothing but what the replay would.
pub redo-take :
    (m : ℕ) (slots : List Slot) (b : ℕ) (bytes : List ℕ)
    → All IsData slots
    → redo slots b (redo (take m slots) b bytes) ≡ redo slots b bytes
redo-take m slots b bytes h =
    let size = last_data-HasSize (take m slots) b (All-take m slots h) in
    let whole = last_data-HasSize slots b h in
    redo-lay slots b (redo (take m slots) b bytes) h
    ∙ ap (lay (last_data slots b)) (redo-lay (take m slots) b bytes (All-take m slots h))
    ∙ elim (Option-cases (last_data slots b)) [
      | inl e ↦ rw (e, last_data-take m slots b e) refl
      | inr (d, e) ↦
          let long = subst HasSize e whole in
          rw e (lay-lay (last_data (take m slots) b) d bytes size long)
    ]
    ∙ sym (redo-lay slots b bytes h)

-- Replaying the last slots again after all changes nothing.
pub redo-drop :
    (m : ℕ) (slots : List Slot) (b : ℕ) (bytes : List ℕ)
    → All IsData slots
    → redo (drop m slots) b (redo slots b bytes) ≡ redo slots b bytes
redo-drop m slots b bytes h =
    let whole = last_data-HasSize slots b h in
    redo-lay (drop m slots) b (redo slots b bytes) (All-drop m slots h)
    ∙ elim (Option-cases (last_data (drop m slots) b)) [
      | inl e ↦ rw e refl
      | inr (d, e) ↦
          let same = last_data-drop m slots b d e in
          let long = subst HasSize same whole in
          rw e (
            ap (lay (some d)) (redo-lay slots b bytes h ∙ rw same refl)
            ∙ lay-lay (some d) d bytes long long
            ∙ sym (redo-lay slots b bytes h ∙ rw same refl))
    ]
