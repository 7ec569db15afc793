-- ===== src/Commands/Table.antt =====
-- The table of server/src/command.c seen through the lookup of `cmd_dispatch`.
pub mod Unique
use mathlib.Core.Option
use simple_ftp.Base.{
  ℕ, suc, ◌≤◌, ◌≡◌, refl, sym, ap, subst, ◌∙◌, true, false, Option, none, some, some_inj, List, [],
  ◌∷◌, if◌then◌else◌, length, length-map, length-take, take-eq_self, &&-true, Bool-cases,
  Option-cases, inl, inr, arith,
}
use simple_ftp.CString.{Bytes, str_eq, strncpy, toupper}
use simple_ftp.CString.Laws.{str_eq_iff}
use simple_ftp.Protocol.Types.{max_cmd_name}
use simple_ftp.Commands.{
  HandlerEntry, empty_entry, Registry, cmd_upper, is_handler, index_of, find_handler_index,
  update_at, fill_handler, replace_handler, register_handler, unregister_handler, lookup,
}

image_of :
    {A B : Type 0} (f : A → B) (o : Option A) {b : B}
    → Option.map f o ≡ some b
    → (a : A) × (o ≡ some a) × (f a ≡ b)
image_of f none e = absurd (cc e)
image_of f (some a) e = (a, refl, some_inj e)

module _ {H : Type 0} where
  -- What a lookup answers: the handler and the one before it.
  abbrev pub handlers_of : Option (HandlerEntry H) → Option (Option H × Option H)
  handlers_of none = none
  handlers_of (some e) = some (e.handler, e.prev_handler)

  unfoldable pub handlers_for : Bytes → List (HandlerEntry H) → Option (Option H × Option H)
  handlers_for name es = handlers_of (lookup name es)

  -- No two entries in use have one name.
  unfoldable pub Distinct : List (HandlerEntry H) → Type 0
  Distinct [] = Unit
  Distinct (e ∷ es) = (e.in_use ≡ true → lookup e.command es ≡ none) × Distinct es

  index_of-suc :
      (name : Bytes) (e : HandlerEntry H) (es : List (HandlerEntry H)) {i : ℕ}
      → is_handler name e ≡ false
      → index_of name (e ∷ es) ≡ some i
      → (j : ℕ) × (index_of name es ≡ some j) × (suc j ≡ i)
  unfolding index_of
  index_of-suc name e es {i} there k =
      of_option (index_of name es)
        (ap (λ b. if b then some 0 else Option.map (λ j. suc j) (index_of name es)) (sym there) ∙ k)
    where
      of_option :
          (o : Option ℕ) → Option.map (λ j. suc j) o ≡ some i → (j : ℕ) × (o ≡ some j) × (suc j ≡ i)
      of_option none l = absurd (cc l)
      of_option (some j) l = (j, refl, some_inj l)

  index_of-zero :
      (name : Bytes) (e : HandlerEntry H) (es : List (HandlerEntry H)) {i : ℕ}
      → is_handler name e ≡ true
      → index_of name (e ∷ es) ≡ some i
      → 0 ≡ i
  unfolding index_of
  index_of-zero name e es {i} here k =
      some_inj
        (ap (λ b. if b then some 0 else Option.map (λ j. suc j) (index_of name es)) (sym here) ∙ k)

  lookup-index_of-none :
      (name : Bytes) (es : List (HandlerEntry H)) → index_of name es ≡ none → lookup name es ≡ none
  unfolding index_of lookup
  lookup-index_of-none name [] h = refl
  lookup-index_of-none name (e ∷ es) h = elim (Bool-cases (is_handler name e)) [
    | inl here ↦ absurd (
        cc (
          ap (λ b. if b then some 0 else Option.map (λ j. suc j) (index_of name es)) (sym here)
          ∙ h))
    | inr there ↦
        ap (λ b. if b then some e else lookup name es) there
        ∙ lookup-index_of-none name es (
            of_map (index_of name es) (
              ap (λ b. if b then some 0 else Option.map (λ j. suc j) (index_of name es)) (sym there)
              ∙ h))
  ]
    where
      of_map : (o : Option ℕ) → Option.map (λ i. suc i) o ≡ none → o ≡ none
      of_map none k = refl
      of_map (some i) k = absurd (cc k)

  -- The entry that a name finds is in use under that name, so another name does not find it.
  is_handler-other :
      (name n : Bytes) (e : HandlerEntry H)
      → is_handler name e ≡ true
      → is_handler n e ≡ str_eq name n
  unfolding is_handler
  is_handler-other name n e h = ground (arith, h, str_eq_iff e.command name)

  is_handler-same :
      (name n : Bytes) (e : HandlerEntry H)
      → is_handler name e ≡ false
      → is_handler n e ≡ true
      → str_eq name n ≡ false
  unfolding is_handler
  is_handler-same name n e h k = ground (arith, h, k, str_eq_iff name n)

  handlers_for-replace :
      (name n : Bytes) (h : H) (p : Option H) (es : List (HandlerEntry H)) (i : ℕ)
      → index_of name es ≡ some i
      → handlers_for n (update_at i (replace_handler h p) es)
        ≡ (if str_eq name n then some (some h, p) else handlers_for n es)
  unfolding lookup update_at handlers_for index_of
  handlers_for-replace name n h p [] i k = absurd (cc k)
  handlers_for-replace name n h p (e ∷ es) i k = elim (Bool-cases (is_handler name e)) [
    | inl here ↦
        subst
          (λ j.
            handlers_for n (update_at j (replace_handler h p) (e ∷ es))
            ≡ (if str_eq name n then some (some h, p) else handlers_for n (e ∷ es)))
          (index_of-zero name e es here k) (ground (arith, is_handler-other name n e here))
    | inr there ↦
        let (j, l, same) = index_of-suc name e es there k in
        subst
          (λ j.
            handlers_for n (update_at j (replace_handler h p) (e ∷ es))
            ≡ (if str_eq name n then some (some h, p) else handlers_for n (e ∷ es)))
          same
          (ground (arith, is_handler-same name n e there, handlers_for-replace name n h p es j l))
  ]

  fill_handler_taken :
      (new e : HandlerEntry H) (es : List (HandlerEntry H))
      → e.in_use ≡ true
      → fill_handler new (e ∷ es) ≡ Option.map (λ fs. e ∷ fs) (fill_handler new es)
  unfolding fill_handler
  fill_handler_taken new e es h =
      ap (λ b. if b then Option.map (λ fs. e ∷ fs) (fill_handler new es) else some (new ∷ es)) h

  fill_handler_free :
      (new e : HandlerEntry H) (es : List (HandlerEntry H))
      → e.in_use ≡ false
      → fill_handler new (e ∷ es) ≡ some (new ∷ es)
  unfolding fill_handler
  fill_handler_free new e es h =
      ap (λ b. if b then Option.map (λ fs. e ∷ fs) (fill_handler new es) else some (new ∷ es)) h

  lookup-fill_handler :
      (new : HandlerEntry H) (es fs : List (HandlerEntry H)) (n : Bytes)
      → new.in_use ≡ true
      → lookup new.command es ≡ none
      → fill_handler new es ≡ some fs
      → lookup n fs ≡ (if str_eq new.command n then some new else lookup n es)
  unfolding fill_handler lookup is_handler
  lookup-fill_handler new [] fs n used absent k = absurd (cc k)
  lookup-fill_handler new (e ∷ es) fs n used absent k = elim (Bool-cases e.in_use) [
    | inr unused ↦
        let eq : fs ≡ (new ∷ es) = some_inj (sym k ∙ fill_handler_free new e es unused) in
        subst (λ gs. lookup n gs ≡ (if str_eq new.command n then some new else lookup n (e ∷ es)))
          (sym eq) (ground (arith, used, unused))
    | inl taken ↦
        let (gs, filled, eq) =
          image_of (λ gs. e ∷ gs) (fill_handler new es)
            (sym (fill_handler_taken new e es taken) ∙ k) in
        subst (λ gs. lookup n gs ≡ (if str_eq new.command n then some new else lookup n (e ∷ es)))
          eq
          (ground (
            arith,
            lookup-fill_handler new es gs n used,
            absent,
            filled,
            taken,
            str_eq_iff e.command n,
            str_eq_iff new.command n,
            str_eq_iff e.command new.command,
          ))
  ]

  lookup-clear :
      (name n : Bytes) (es : List (HandlerEntry H)) (i : ℕ)
      → Distinct es
      → index_of name es ≡ some i
      → lookup n (update_at i (λ e. empty_entry) es) ≡ (if str_eq name n then none else lookup n es)
  unfolding lookup update_at index_of Distinct is_handler
  lookup-clear name n [] i d k = absurd (cc k)
  lookup-clear name n (e ∷ es) i d k = elim (Bool-cases (is_handler name e)) [
    | inl here ↦
        subst
          (λ j.
            lookup n (update_at j (λ e. empty_entry) (e ∷ es))
            ≡ (if str_eq name n then none else lookup n (e ∷ es)))
          (index_of-zero name e es here k) (of_here here)
    | inr there ↦
        let (j, l, same) = index_of-suc name e es there k in
        subst
          (λ j.
            lookup n (update_at j (λ e. empty_entry) (e ∷ es))
            ≡ (if str_eq name n then none else lookup n (e ∷ es)))
          same (ground (arith, is_handler-same name n e there, lookup-clear name n es j d.1 l))
  ]
    where
      of_here :
          is_handler name e ≡ true
          → lookup n (empty_entry ∷ es) ≡ (if str_eq name n then none else lookup n (e ∷ es))
      of_here here = elim (Bool-cases (str_eq name n)) [
        | inl same ↦
            let (used, named) = &&-true e.in_use (str_eq e.command name) here in
            let to_n : e.command ≡ n =
              (str_eq_iff e.command name).0 named ∙ (str_eq_iff name n).0 same in
            rw same (subst (λ x. lookup x es ≡ none) to_n (d.0 used))
        | inr other ↦ ground (arith, is_handler-other name n e here, other)
      ]

length-cmd_upper : (command : Bytes) → length (cmd_upper command) ≤ 7
unfolding cmd_upper
length-cmd_upper command =
    omega (arith, length-map toupper (strncpy max_cmd_name command), length-take 7 command)

-- A new entry.
abbrev registered : {H : Type 0} → H → Option H → Bytes → HandlerEntry H
registered h p name = record { command = name; handler = some h; prev_handler = p; in_use = true }

-- After a successful `cmd_register_handler`, the command in upper case, cut to its field, has exactly
-- the given handlers, whether it was there before or not, and every other name has those that it had.
pub register_handler-handlers_for :
    {H : Type 0} (command : Bytes) (h : H) (p : Option H) (r : Registry H) {after : Registry H}
    → register_handler command h p r ≡ some after
    → (n : Bytes)
    → handlers_for n after.handlers
      ≡ (if str_eq (cmd_upper command) n then some (some h, p) else handlers_for n r.handlers)
unfolding register_handler find_handler_index handlers_for
register_handler-handlers_for command h p r {after} k n = elim (Bool-cases r.initialized) [
  | inr unready ↦ absurd (cc (rw unready at k))
  | inl ready ↦ elim (Option-cases (find_handler_index command r.handlers)) [
    | inr (i, there) ↦
        subst
          (λ (x : Registry _). handlers_for n x.handlers ≡ (
            if str_eq (cmd_upper command) n then some (some h, p) else handlers_for n r.handlers))
          (some_inj (rw (ready, there) at k))
          (handlers_for-replace (cmd_upper command) n h p r.handlers i there)
    | inl absent ↦
        let (es, filled, same) =
          image_of (λ es. record { initialized = r.initialized; handlers = es })
            (fill_handler (registered h p (strncpy max_cmd_name (cmd_upper command))) r.handlers)
            (rw (ready, absent) at k) in
        subst
          (λ (x : Registry _). handlers_for n x.handlers ≡ (
            if str_eq (cmd_upper command) n then some (some h, p) else handlers_for n r.handlers))
          same
          (of_filled es
            (subst (λ x. fill_handler (registered h p x) r.handlers ≡ some es) upper_fits filled)
            absent)
  ]
]
  where
    of_filled :
        (es : List (HandlerEntry _))
        → fill_handler (registered h p (cmd_upper command)) r.handlers ≡ some es
        → index_of (cmd_upper command) r.handlers ≡ none
        → handlers_for n es
          ≡ (if str_eq (cmd_upper command) n then some (some h, p) else handlers_for n r.handlers)
    of_filled es filled absent =
        ap handlers_of (
          lookup-fill_handler (registered h p (cmd_upper command)) r.handlers es n refl
            (lookup-index_of-none (cmd_upper command) r.handlers absent) filled)
        ∙ ground arith

    upper_fits : strncpy max_cmd_name (cmd_upper command) ≡ cmd_upper command
    upper_fits = take-eq_self 7 (cmd_upper command) (length-cmd_upper command)

-- After a successful `cmd_unregister_handler`, where no two entries had one name, the command in upper
-- case, cut to its field, has no handlers, and every other name has those that it had.
pub unregister_handler-handlers_for :
    {H : Type 0} (command : Bytes) (r : Registry H) {after : Registry H}
    → Distinct r.handlers
    → unregister_handler command r ≡ some after
    → (n : Bytes)
    → handlers_for n after.handlers
      ≡ (if str_eq (cmd_upper command) n then none else handlers_for n r.handlers)
unfolding unregister_handler find_handler_index handlers_for
unregister_handler-handlers_for command r d k n = elim (Bool-cases r.initialized) [
  | inr unready ↦ absurd (cc (rw unready at k))
  | inl ready ↦ elim (Option-cases (find_handler_index command r.handlers)) [
    | inl absent ↦ absurd (cc (rw (ready, absent) at k))
    | inr (i, there) ↦
        subst
          (λ (x : Registry _).
            handlers_for n x.handlers
            ≡ (if str_eq (cmd_upper command) n then none else handlers_for n r.handlers))
          (some_inj (rw (ready, there) at k))
          (ap handlers_of (lookup-clear (cmd_upper command) n r.handlers i d there) ∙ ground arith)
  ]
]
