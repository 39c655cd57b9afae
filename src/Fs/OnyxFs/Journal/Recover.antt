-- ===== src/Fs/OnyxFs/Journal/Recover.antt =====
-- Fs/OnyxFs/Journal: recovery on mounting, whether or not it comes to its end.
use onyx_kernel.Prelude.{
  ℕ, zero, suc, ◌+◌, ◌*◌, ◌≤◌, ◌<◌, ◌≡◌, refl, sym, ap, ap₂, subst, ◌∙◌, false, ◌||◌, none, some,
  List, [], ◌∷◌, length, take, take_of_length-le, All, ◌==◌, arith, inl, inr, ◌⊎◌,
}
use onyx_kernel.Core.Errno.{Errno, ok, err, io}
use onyx_kernel.Fs.OnyxFs.Journal.{
  Log, Run, and_then, set_head, no_journal, zero_loop, scan_loop, replay_loop, journal_recover,
}
use onyx_kernel.Fs.OnyxFs.Journal.Redo.{Slot, redo, IsData, redo-take, redo-drop}
use onyx_kernel.Fs.OnyxFs.Journal.Record.{Slots, Slots-frame, scan_loop_lem}
use onyx_kernel.Fs.OnyxFs.Journal.Clear.{clear, length-clear, redo-clear, Zeroed, zero_loop-Zeroed}
use onyx_kernel.Fs.OnyxFs.Journal.Replay.{IsAway, Replayed, replay_loop-Replayed}

-- The journal holds the slots of a transaction and its commit marker, and the targets lie outside.
pub record Logged (l : Log) (slots : List Slot) : Type 0 where
  pub journal : no_journal l ≡ false
  pub room : length slots < l.journal_size
  pub entries : Slots l.disk.blocks l.journal_start slots
  pub sizes : All IsData slots
  pub away : All (IsAway l.journal_start (length slots)) slots

-- The block does not lie in the slots or their marker.
abbrev pub Outside : Log → ℕ → ℕ → Type 0
Outside l n b = (b < l.journal_start) ⊎ (l.journal_start + n < b)

-- Recovery has replayed every slot, or it has stopped in a state from which a replay of what is left
-- in the journal does the same.
pub record Recovered (l : Log) (slots : List Slot) (r : Run) : Type 0 where
  pub result :
      ((r.0 ≡ ok tt)
        × ((b : ℕ)
            → Outside l (length slots) b
            → r.1.disk.blocks b ≡ redo slots b (l.disk.blocks b)))
      ⊎ ((r.0 ≡ err io)
          × (rest : List Slot) × Logged r.1 rest
          × (length rest ≡ length slots)
          × (r.1.journal_start ≡ l.journal_start)
          × ((b : ℕ)
              → Outside l (length slots) b
              → redo rest b (r.1.disk.blocks b) ≡ redo slots b (l.disk.blocks b)))
  pub enough : 2 * length slots < l.disk.writes_left → r.0 ≡ ok tt

redo-away :
    (m : ℕ) (slots : List Slot) (at n b : ℕ) (bytes : List ℕ)
    → All (IsAway at n) slots
    → at ≤ b
    → b ≤ at + n
    → redo (take m slots) b bytes ≡ bytes
redo-away zero slots at n b bytes a p q = refl
redo-away (suc m) [] at n b bytes a p q = refl
redo-away (suc m) (none ∷ slots) at n b bytes a p q = redo-away m slots at n b bytes a.1 p q
redo-away (suc m) (some (c, new) ∷ slots) at n b bytes a p q =
    let other : (c == b) ≡ false = ground (arith, a.0, p, q) in
    rw (other, redo) (redo-away m slots at n b bytes a.1 p q)

pub All-clear :
    (P : Slot → Type 0) (z : ℕ) (slots : List Slot) → P none → All P slots → All P (clear z slots)
All-clear P zero slots e h = h
All-clear P (suc z) [] e h = h
All-clear P (suc z) (s ∷ slots) e h = (e, All-clear P z slots e h.1)

-- The state of a journal that has not moved.
pub moved :
    (l r : Log) (slots rest : List Slot)
    → r.journal_start ≡ l.journal_start
    → r.journal_size ≡ l.journal_size
    → length rest ≡ length slots
    → Logged l slots
    → Slots r.disk.blocks l.journal_start rest
    → All IsData rest
    → All (IsAway l.journal_start (length slots)) rest
    → Logged r rest
moved l r slots rest es ez el v w d a = record {
  journal = ap₂ (λ x y. (x == 0) || (y == 0)) es ez ∙ v.journal;
  room = omega (arith, v.room, el, ez);
  entries = subst (λ x. Slots r.disk.blocks x rest) (sym es) w;
  sizes = d;
  away =
      subst (λ x. All (IsAway x (length rest)) rest) (sym es)
        (subst (λ n. All (IsAway l.journal_start n) rest) (sym el) a);
}

module _ (l : Log) (slots : List Slot) (v : Logged l slots) where
  front : l.journal_start ≡ l.journal_start + 0
  front = omega arith

  at_front : Slots l.disk.blocks (l.journal_start + 0) slots
  at_front = subst (λ a. Slots l.disk.blocks a slots) front v.entries

  recover_eq :
      journal_recover l
      ≡ and_then
          (replay_loop (length slots) 0 l)
          (λ m. and_then (zero_loop (length slots + 1) 0 m) (set_head 0))
  unfolding journal_recover
  recover_eq =
      let found : scan_loop l.journal_size 0 l ≡ some (length slots) =
        scan_loop_lem l.journal_size 0 l slots at_front v.room ∙ ap some (omega arith) in
      rw v.journal (rw found refl)

  -- The replay has stopped.
  stopped-Recovered :
      (e : Errno) (r : Log) → Replayed l slots (err e, r) → Recovered l slots (err e, r)
  stopped-Recovered code r w = record {
    result = elim w.result [
      | inl (e, f) ↦ absurd (cc)
      | inr (e, m, f) ↦ inr (
        e,
        slots,
        moved l r slots slots w.start w.size refl v
            (Slots-frame l.disk.blocks r.disk.blocks l.journal_start slots
              (λ b p q.
                f b
                ∙ redo-away m slots l.journal_start (length slots) b (l.disk.blocks b) v.away p q)
              v.entries)
            v.sizes v.away,
        refl,
        w.start,
        λ b o. ap (redo slots b) (f b) ∙ redo-take m slots b (l.disk.blocks b) v.sizes,
      )
    ];
    enough = λ p. absurd (cc (w.enough (omega (arith, p))));
  }

  -- The replay has come to its end, and the slots are zeroed.
  Zeroed-Recovered :
      (m : Log) (r : Run)
      → m.journal_start ≡ l.journal_start
      → m.journal_size ≡ l.journal_size
      → ((b : ℕ) → m.disk.blocks b ≡ redo slots b (l.disk.blocks b))
      → l.disk.writes_left ≤ m.disk.writes_left + length slots
      → Zeroed m l.journal_start slots r
      → Recovered l slots (and_then r (set_head 0))
  Zeroed-Recovered m (ok t, q) es ez f p z = record {
    result = inl (refl, λ b o. z.outside b o ∙ f b);
    enough = λ h. refl;
  }
  Zeroed-Recovered m (err e, q) es ez f p z = record {
    result = elim z.result [
      | inl g ↦ absurd (cc)
      | inr (g, k, w) ↦ inr (
        g,
        clear k slots,
        moved l q slots (clear k slots) (z.start ∙ es) (z.size ∙ ez) (length-clear k slots) v w
            (All-clear IsData k slots tt v.sizes)
            (All-clear (IsAway l.journal_start (length slots)) k slots tt v.away),
        length-clear k slots,
        z.start ∙ es,
        λ b o.
            ap (redo (clear k slots) b) (z.outside b o ∙ f b)
            ∙ redo-clear k slots b (redo slots b (l.disk.blocks b))
            ∙ redo-drop k slots b (l.disk.blocks b) v.sizes,
      )
    ];
    enough = λ h. absurd (cc (z.enough (omega (arith, h, p))));
  }

  -- The slots of a journal after the replay.
  zero_after :
      (m : Log)
      → m.journal_start ≡ l.journal_start
      → ((b : ℕ) → m.disk.blocks b ≡ redo slots b (l.disk.blocks b))
      → Zeroed m l.journal_start slots (zero_loop (length slots + 1) 0 m)
  zero_after m es f =
      let whole : take (length slots) slots ≡ slots =
        take_of_length-le (length slots) slots (omega arith) in
      let entries : Slots m.disk.blocks l.journal_start slots =
        Slots-frame l.disk.blocks m.disk.blocks l.journal_start slots
          (λ b p q.
            f b
            ∙ ap (λ k. redo k b (l.disk.blocks b)) (sym whole)
            ∙ redo-away (length slots) slots l.journal_start (length slots) b (l.disk.blocks b)
                v.away p q)
          v.entries in
      let at : m.journal_start + 0 ≡ l.journal_start = omega (arith, es) in
      let count : suc (length slots) ≡ length slots + 1 = omega arith in
      subst (λ n. Zeroed m l.journal_start slots (zero_loop n 0 m)) count
        (subst (λ a. Zeroed m a slots (zero_loop (suc (length slots)) 0 m)) at
          (zero_loop-Zeroed slots 0 m (subst (λ a. Slots m.disk.blocks a slots) (sym at) entries)))

  Replayed-Recovered :
      (r : Run)
      → Replayed l slots r
      → Recovered l slots
          (and_then r (λ m. and_then (zero_loop (length slots + 1) 0 m) (set_head 0)))
  Replayed-Recovered (ok t, m) w = elim w.result [
    | inl (e, f) ↦
        Zeroed-Recovered m (zero_loop (length slots + 1) 0 m) w.start w.size f w.spent
          (zero_after m w.start f)
    | inr (e, k, f) ↦ absurd (cc)
  ]
  Replayed-Recovered (err e, m) w = stopped-Recovered e m w

  pub journal_recover-Recovered : Recovered l slots (journal_recover l)
  journal_recover-Recovered = subst (Recovered l slots) (sym recover_eq) (
      Replayed-Recovered (replay_loop (length slots) 0 l)
        (replay_loop-Replayed slots 0 (length slots) l at_front (omega arith) v.away))
