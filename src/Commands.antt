-- ===== src/Commands.antt =====
-- server/src/command.c: the table of command handlers. A handler is a value of the parameter type
-- `H`, standing for a function pointer, and `call` runs it; a handler returns true for 0 and false for
-- -1, the only values that the server's handlers return.
pub mod Table
pub mod Standard
use mathlib.Core.Option
use simple_ftp.Base.{
  ℕ, zero, suc, ◌+◌, ◌-◌, Bool, true, false, not, ◌&&◌, ◌||◌, Option, none, some, List, [], ◌∷◌,
  ltb, leb, ◌==◌, if◌then◌else◌, length, take,
}
use simple_ftp.CString.{Bytes, str_eq, strncpy, toupper}
use simple_ftp.Utils.{to_uppercase}
use simple_ftp.Protocol.Types.{Command, max_cmd_name}

-- `CMD_MAX_HANDLERS`
abbrev pub max_handlers : ℕ
max_handlers = 64

-- `cmd_handler_entry_t`; `none` stands for a null pointer.
pub record HandlerEntry (H : Type 0) : Type 0 where
  pub command : Bytes
  pub handler : Option H
  pub prev_handler : Option H
  pub in_use : Bool

abbrev pub empty_entry : {H : Type 0} → HandlerEntry H
empty_entry = record { command = []; handler = none; prev_handler = none; in_use = false }

unfoldable pub clear_handlers : {H : Type 0} → ℕ → List (HandlerEntry H)
clear_handlers zero = []
clear_handlers (suc n) = empty_entry ∷ clear_handlers n

-- The module's variables.
pub record Registry (H : Type 0) : Type 0 where
  pub initialized : Bool
  pub handlers : List (HandlerEntry H)

-- `cmd_init`
unfoldable pub cmd_init : {H : Type 0} → Registry H → Registry H
unfolding clear_handlers
cmd_init r =
    if r.initialized
    then r
    else record { initialized = true; handlers = clear_handlers max_handlers }

-- `cmd_cleanup`
unfoldable pub cmd_cleanup : {H : Type 0} → Registry H → Registry H
unfolding clear_handlers
cmd_cleanup r =
    if r.initialized
    then record { initialized = false; handlers = clear_handlers max_handlers }
    else r

-- `cmd_upper`
unfoldable pub cmd_upper : Bytes → Bytes
unfolding toupper
cmd_upper command = to_uppercase (strncpy max_cmd_name command)

-- `g_handlers[i].in_use && strcmp(g_handlers[i].command, name) == 0`
unfoldable pub is_handler : {H : Type 0} → Bytes → HandlerEntry H → Bool
unfolding str_eq
is_handler name e = e.in_use && str_eq e.command name

-- The loop of `find_handler_index`; the `none` stands for -1.
unfoldable pub index_of : {H : Type 0} → Bytes → List (HandlerEntry H) → Option ℕ
unfolding is_handler
index_of name [] = none
index_of name (e ∷ es) =
    if is_handler name e then some 0 else Option.map (λ i. suc i) (index_of name es)

-- `find_handler_index`
unfoldable pub find_handler_index : {H : Type 0} → Bytes → List (HandlerEntry H) → Option ℕ
unfolding cmd_upper index_of
find_handler_index command es = index_of (cmd_upper command) es

-- A write to `g_handlers[i]`.
unfoldable pub update_at :
    {H : Type 0}
    → ℕ
    → (HandlerEntry H → HandlerEntry H)
    → List (HandlerEntry H)
    → List (HandlerEntry H)
update_at i f [] = []
update_at zero f (e ∷ es) = f e ∷ es
update_at (suc i) f (e ∷ es) = e ∷ update_at i f es

-- The loop for an empty slot.
unfoldable pub fill_handler :
    {H : Type 0} → HandlerEntry H → List (HandlerEntry H) → Option (List (HandlerEntry H))
fill_handler new [] = none
fill_handler new (e ∷ es) =
    let rest = fill_handler new es in
    if e.in_use then Option.map (λ fs. e ∷ fs) rest else some (new ∷ es)

-- The two assignments to an entry that is there.
abbrev pub replace_handler : {H : Type 0} → H → Option H → HandlerEntry H → HandlerEntry H
replace_handler handler prev_handler e = record {
  command = e.command;
  handler = some handler;
  prev_handler = prev_handler;
  in_use = e.in_use;
}

-- `cmd_register_handler`; `none` stands for -1, with the table unchanged.
unfoldable pub register_handler :
    {H : Type 0} → Bytes → H → Option H → Registry H → Option (Registry H)
unfolding find_handler_index update_at fill_handler cmd_upper
register_handler command handler prev_handler r =
    if not r.initialized then none else elim (find_handler_index command r.handlers) [
      | some i ↦ some (record {
        initialized = r.initialized;
        handlers = update_at i (replace_handler handler prev_handler) r.handlers;
      })
      | none ↦
          Option.map (λ es. record { initialized = r.initialized; handlers = es })
            (fill_handler
              (record {
                command = strncpy max_cmd_name (cmd_upper command);
                handler = some handler;
                prev_handler = prev_handler;
                in_use = true;
              })
              r.handlers)
    ]

-- `cmd_unregister_handler`; `none` stands for -1, with the table unchanged.
unfoldable pub unregister_handler : {H : Type 0} → Bytes → Registry H → Option (Registry H)
unfolding find_handler_index update_at
unregister_handler command r =
    if not r.initialized then none else elim (find_handler_index command r.handlers) [
      | none ↦ none
      | some i ↦ some (record {
        initialized = r.initialized;
        handlers = update_at i (λ e. empty_entry) r.handlers;
      })
    ]

-- `cmd_is_registered`
unfoldable pub is_registered : {H : Type 0} → Bytes → Registry H → Bool
unfolding find_handler_index
is_registered command r =
    if r.initialized
    then elim (find_handler_index command r.handlers) [ none ↦ false | some i ↦ true ]
    else false

unfoldable pub used_handlers : {H : Type 0} → List (HandlerEntry H) → ℕ
used_handlers [] = 0
used_handlers (e ∷ es) = (if e.in_use then 1 else 0) + used_handlers es

-- `cmd_get_handler_count`
unfoldable pub handler_count : {H : Type 0} → Registry H → ℕ
unfolding used_handlers
handler_count r = if r.initialized then used_handlers r.handlers else 0

-- The first entry that the loop of `cmd_dispatch` finds.
unfoldable pub lookup : {H : Type 0} → Bytes → List (HandlerEntry H) → Option (HandlerEntry H)
unfolding is_handler
lookup name [] = none
lookup name (e ∷ es) = if is_handler name e then some e else lookup name es

module _ {H S : Type 0} (call : H → Command → S → Bool × S) where
  -- A call through a pointer that may be null; a null `handler` is never in use.
  unfoldable pub call_handler : Option H → Command → S → Bool × S
  call_handler none cmd s = (false, s)
  call_handler (some h) cmd s = call h cmd s

  unfoldable pub after_prev : Option H → Command → Bool × S → Bool × S
  unfolding call_handler
  after_prev h cmd (false, s) = (false, s)
  after_prev h cmd (true, s) = call_handler h cmd s

  unfoldable pub dispatch_to : HandlerEntry H → Command → S → Bool × S
  unfolding call_handler after_prev
  dispatch_to e cmd s = elim e.prev_handler [
    | none ↦ call_handler e.handler cmd s
    | some p ↦ after_prev e.handler cmd (call p cmd s)
  ]

  -- `cmd_dispatch`
  unfoldable pub dispatch : Registry H → Command → S → Bool × S
  unfolding lookup dispatch_to
  dispatch r cmd s =
      if not r.initialized
      then (false, s)
      else elim (lookup cmd.command r.handlers) [ none ↦ (false, s) | some e ↦ dispatch_to e cmd s ]
