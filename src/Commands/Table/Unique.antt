-- ===== src/Commands/Table/Unique.antt =====
-- The names in the table of server/src/command.c stay distinct.

use simple_ftp.Base.{
  ℕ, zero, suc, ◌≡◌, refl, sym, subst, ◌∙◌, true, Option, none, some, some_inj, List, [], ◌∷◌,
  Bool-cases, Option-cases, take-eq_self, inl, inr, arith,
}
use simple_ftp.CString.{Bytes, strncpy}
use simple_ftp.CString.Laws.{str_eq_iff}
use simple_ftp.Protocol.Types.{max_cmd_name}
use simple_ftp.Commands.{
  HandlerEntry, Registry, cmd_upper, is_handler, find_handler_index, update_at, fill_handler,
  replace_handler, register_handler, lookup,
}
use simple_ftp.Commands.Table.{
  Distinct, image_of, fill_handler_taken, fill_handler_free, lookup-fill_handler,
  lookup-index_of-none, registered, length-cmd_upper,
}

module _ {H : Type 0} where
  lookup-replace-none :
      (n : Bytes) (h : H) (p : Option H) (es : List (HandlerEntry H)) (i : ℕ)
      → lookup n es ≡ none
      → lookup n (update_at i (replace_handler h p) es) ≡ none
  unfolding lookup update_at is_handler
  lookup-replace-none n h p [] i k = k
  lookup-replace-none n h p (e ∷ es) zero k = elim (Bool-cases (is_handler n e)) [
    | inl here ↦ absurd (cc (rw here at k))
    | inr there ↦ rw there (rw there at k)
  ]
  lookup-replace-none n h p (e ∷ es) (suc i) k = elim (Bool-cases (is_handler n e)) [
    | inl here ↦ absurd (cc (rw here at k))
    | inr there ↦ rw there (lookup-replace-none n h p es i (rw there at k))
  ]

  Distinct-replace :
      (h : H) (p : Option H) (es : List (HandlerEntry H)) (i : ℕ)
      → Distinct es
      → Distinct (update_at i (replace_handler h p) es)
  unfolding Distinct update_at
  Distinct-replace h p [] i d = d
  Distinct-replace h p (e ∷ es) zero d = d
  Distinct-replace h p (e ∷ es) (suc i) d =
      ((λ used. lookup-replace-none e.command h p es i (d.0 used)), Distinct-replace h p es i d.1)

  Distinct-fill_handler :
      (new : HandlerEntry H) (es fs : List (HandlerEntry H))
      → new.in_use ≡ true
      → lookup new.command es ≡ none
      → Distinct es
      → fill_handler new es ≡ some fs
      → Distinct fs
  unfolding Distinct lookup is_handler fill_handler
  Distinct-fill_handler new [] fs used absent d k = absurd (cc k)
  Distinct-fill_handler new (e ∷ es) fs used absent d k = elim (Bool-cases e.in_use) [
    | inr unused ↦
        subst Distinct (some_inj (sym (fill_handler_free new e es unused) ∙ k))
          ((λ u. ground (arith, absent, unused)), d.1)
    | inl taken ↦
        let (gs, filled, eq) =
          image_of (λ gs. e ∷ gs) (fill_handler new es)
            (sym (fill_handler_taken new e es taken) ∙ k) in
        let rest : lookup new.command es ≡ none = ground (arith, absent) in
        subst Distinct eq (
          (λ u.
              lookup-fill_handler new es gs e.command used rest filled
              ∙ ground (
                arith,
                absent,
                taken,
                d.0 taken,
                str_eq_iff new.command e.command,
                str_eq_iff e.command new.command,
              )),
          Distinct-fill_handler new es gs used rest d.1 filled,
        )
  ]

-- A successful `cmd_register_handler` keeps the names of the table distinct.
pub register_handler-Distinct :
    {H : Type 0} (command : Bytes) (h : H) (p : Option H) (r : Registry H) {after : Registry H}
    → Distinct r.handlers
    → register_handler command h p r ≡ some after
    → Distinct after.handlers
unfolding register_handler find_handler_index
register_handler-Distinct command h p r {after} d k = elim (Bool-cases r.initialized) [
  | inr unready ↦ absurd (cc (rw unready at k))
  | inl ready ↦ elim (Option-cases (find_handler_index command r.handlers)) [
    | inr (i, there) ↦
        subst (λ (x : Registry _). Distinct x.handlers) (some_inj (rw (ready, there) at k))
          (Distinct-replace h p r.handlers i d)
    | inl absent ↦
        let (es, filled, same) =
          image_of (λ es. record { initialized = r.initialized; handlers = es })
            (fill_handler (registered h p (strncpy max_cmd_name (cmd_upper command))) r.handlers)
            (rw (ready, absent) at k) in
        subst (λ (x : Registry _). Distinct x.handlers) same
          (Distinct-fill_handler (registered h p (cmd_upper command)) r.handlers es refl
            (lookup-index_of-none (cmd_upper command) r.handlers absent) d
            (subst (λ x. fill_handler (registered h p x) r.handlers ≡ some es)
              (take-eq_self 7 (cmd_upper command) (length-cmd_upper command)) filled))
  ]
]
