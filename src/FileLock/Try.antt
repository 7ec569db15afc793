-- ===== src/FileLock/Try.antt =====
-- What both `try` functions have in common: entry or memory, test, counter.

use simple_ftp.Base.{
  ℕ, ◌≡◌, refl, ap, subst, ◌∙◌, Bool, true, false, not, ◌&&◌, ◌||◌, Option, none, some, ◌∷◌,
  if◌then◌else◌, Bool-cases, Option-cases, inl, inr,
}
use simple_ftp.CString.{Bytes, str_eq}
use simple_ftp.CString.Laws.{str_eq_iff, str_eq_refl}
use simple_ftp.FileLock.{Entry, Table, find, modify, Allocation, get_or_create, create, try_with}
use simple_ftp.FileLock.Counts.{Distinct, find-modify, find-Fresh, Distinct-modify}

-- The counters of one path.
pub record Counts : Type 0 where
  pub readers : ℕ
  pub writers : ℕ
  pub waiting : ℕ

abbrev pub zeros : Counts
zeros = record { readers = 0; writers = 0; waiting = 0 }

abbrev pub counts_of : Option Entry → Counts
counts_of none = zeros
counts_of (some e) = record {
  readers = e.readers;
  writers = e.writers;
  waiting = e.waiting_writers;
}

unfoldable pub counts : Bytes → Table → Counts
counts p t = counts_of (find p t)

abbrev pub is_some {ℓ} : {A : Type ℓ} → Option A → Bool
is_some none = false
is_some (some a) = true

-- There is an entry for the path, or memory for a new one.
abbrev pub has_entry : Allocation → Bytes → Table → Bool
has_entry alloc p t = is_some (find p t) || is_some alloc

module _ (blocked : Entry → Bool) (bars : Counts → Bool) (take : Entry → Entry)
    (taken : Counts → Counts) (bars_blocked : (e : Entry) → blocked e ≡ bars (counts_of (some e)))
    (zeros_open : bars zeros ≡ false)
    (taken_take : (e : Entry) → counts_of (some (take e)) ≡ taken (counts_of (some e)))
    (same_path : (e : Entry) → (take e).path ≡ e.path) where
  abbrev pub tried : Allocation → Bytes → Table → Bool × Table
  tried alloc p t = try_with blocked take p t (get_or_create alloc p t)

  fresh_entry : ℕ → Bytes → Entry
  fresh_entry a p = record { address = a; path = p; readers = 0; writers = 0; waiting_writers = 0 }

  -- The three ways that a call can go.
  data Outcome (alloc : Allocation) (p : Bytes) (t : Table) : Type 0 where
    no_memory : find p t ≡ none → alloc ≡ none → tried alloc p t ≡ (false, t) → Outcome alloc p t
    created :
        (a : ℕ)
        → find p t ≡ none
        → alloc ≡ some a
        → tried alloc p t ≡ (true, take (fresh_entry a p) ∷ t)
        → Outcome alloc p t
    busy :
        (e : Entry)
        → find p t ≡ some e
        → blocked e ≡ true
        → tried alloc p t ≡ (false, t)
        → Outcome alloc p t
    joined :
        (e : Entry)
        → find p t ≡ some e
        → blocked e ≡ false
        → tried alloc p t ≡ (true, modify p take t)
        → Outcome alloc p t

  outcome : (alloc : Allocation) (p : Bytes) (t : Table) → Outcome alloc p t
  unfolding get_or_create try_with create fresh_entry modify
  outcome alloc p t = elim (Option-cases (find p t)) [
    | inl absent ↦ when_absent alloc absent
    | inr (e, present) ↦ elim (Bool-cases (blocked e)) [
      | inl yes_busy ↦
          busy e present yes_busy
            (ap (try_with blocked take p t) (entry_there present) ∙ rw yes_busy refl)
      | inr free ↦
          joined e present free
            (ap (try_with blocked take p t) (entry_there present) ∙ rw free refl)
    ]
  ]
    where
      entry_there : {e : Entry} → find p t ≡ some e → get_or_create alloc p t ≡ some (e, t)
      entry_there h = rw (h, get_or_create) refl

      when_absent : (a : Allocation) → find p t ≡ none → Outcome a p t
      when_absent none h =
          let missed : get_or_create none p t ≡ none = rw (h, get_or_create) refl in
          no_memory h refl (ap (try_with blocked take p t) missed)
      when_absent (some a) h = created a h refl (
          ap (try_with blocked take p t) made
          ∙ rw (bars_blocked (fresh_entry a p) ∙ zeros_open) (rw (str_eq_refl p) refl))
        where
          made : get_or_create (some a) p t ≡ some (fresh_entry a p, fresh_entry a p ∷ t)
          made = rw (h, get_or_create) refl

  pub tried-result :
      (alloc : Allocation) (p : Bytes) (t : Table)
      → (tried alloc p t).0 ≡ (has_entry alloc p t && not (bars (counts p t)))
  unfolding counts
  tried-result alloc p t = of_outcome (outcome alloc p t)
    where
      of_outcome :
          Outcome alloc p t → (tried alloc p t).0 ≡ (has_entry alloc p t && not (bars (counts p t)))
      of_outcome (no_memory h k e) = rw (e, h, k) refl
      of_outcome (created a h k e) = rw (e, h, k, zeros_open) refl
      of_outcome (busy x h b e) = rw (e, h, ← bars_blocked x, b) refl
      of_outcome (joined x h b e) = rw (e, h, ← bars_blocked x, b) refl

  pub tried-counts :
      (alloc : Allocation) (p q : Bytes) (t : Table)
      → counts q (tried alloc p t).1
        ≡ (if (tried alloc p t).0 && str_eq p q then taken (counts q t) else counts q t)
  unfolding counts find fresh_entry
  tried-counts alloc p q t = of_outcome (outcome alloc p t)
    where
      of_outcome :
          Outcome alloc p t
          → counts q (tried alloc p t).1
            ≡ (if (tried alloc p t).0 && str_eq p q then taken (counts q t) else counts q t)
      of_outcome (no_memory h k e) = rw e refl
      of_outcome (created a h k e) = rw e (elim (Bool-cases (str_eq p q)) [
        | inl same ↦
            let gone : find q t ≡ none = subst (λ x. find x t ≡ none) ((str_eq_iff p q).0 same) h in
            rw (same_path (fresh_entry a p), same, gone) (taken_take (fresh_entry a p))
        | inr other ↦ rw (same_path (fresh_entry a p), other) refl
      ])
      of_outcome (busy x h b e) = rw e refl
      of_outcome (joined x h b e) =
          rw (e, find-modify p q take t same_path)
            (elim (Bool-cases (str_eq p q)) [
              | inl same ↦
                  let here : find q t ≡ some x =
                    subst (λ y. find y t ≡ some x) ((str_eq_iff p q).0 same) h in
                  rw (same, here) (taken_take x)
              | inr other ↦ rw other refl
            ])

  pub tried-Distinct :
      (alloc : Allocation) (p : Bytes) (t : Table) → Distinct t → Distinct (tried alloc p t).1
  unfolding fresh_entry
  tried-Distinct alloc p t d = of_outcome (outcome alloc p t)
    where
      of_outcome : Outcome alloc p t → Distinct (tried alloc p t).1
      of_outcome (no_memory h k e) = rw e d
      of_outcome (created a h k e) = rw (e, same_path (fresh_entry a p)) (find-Fresh p t h, d)
      of_outcome (busy x h b e) = rw e d
      of_outcome (joined x h b e) = rw e (Distinct-modify p take t same_path d)
