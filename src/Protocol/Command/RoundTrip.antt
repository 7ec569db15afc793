-- ===== src/Protocol/Command/RoundTrip.antt =====
-- A command line is read back: name, argument, Telnet escaping and line end.
use mathlib.Core.List.{reverse, reverse-append, reverse-reverse}
use simple_ftp.Base.{
  ℕ, ◌+◌, ◌≤◌, ◌<◌, ◌≡◌, refl, sym, ap, ◌∙◌, ◌≢◌, true, false, some, [], ◌∷◌, ◌++◌, leb, ◌==◌,
  length, length-append, take-eq_self, All, All-append, Bool-cases, inl, inr, arith,
}
use simple_ftp.CString.{Bytes, c_string, isspace}
use simple_ftp.CString.Laws.{c_string-eq_self}
use simple_ftp.Utils.{to_uppercase}
use simple_ftp.Utils.Trim.{HeadIsSolid, IsTrimmed, trim_whitespace-eq_self}
use simple_ftp.Protocol.Telnet.{filter_telnet}
use simple_ftp.Protocol.Telnet.Laws.{All-escape, escape, filter_telnet-escape}
use simple_ftp.Protocol.Command.{cut_crlf, split_space, fill_command, parse_filtered, parse_command}

-- A byte that may stand in a command name: no space of any kind, no line end, no Telnet byte.
abbrev pub IsNameByte : ℕ → Type 0
IsNameByte c = (isspace c ≡ false) × (c ≢ 0xF4)

-- A byte that may stand in an argument; the Telnet byte 0xFF may, since it is escaped.
abbrev pub IsArgumentByte : ℕ → Type 0
IsArgumentByte c = (c ≢ b'\n') × (c ≢ 0xF4)

abbrev pub crlf : Bytes
crlf = b'\r' ∷ b'\n' ∷ []

cut_crlf-append : (t : Bytes) → All (λ c. c ≢ b'\n') t → cut_crlf (t ++ crlf) ≡ t
unfolding cut_crlf
cut_crlf-append [] h = refl
cut_crlf-append (c ∷ []) h = ground arith
cut_crlf-append (c ∷ d ∷ t) h = ground (arith, cut_crlf-append (d ∷ t) h.1)

split_space-append :
    (name arg : Bytes) → All IsNameByte name → split_space (name ++ b' ' ∷ arg) ≡ (name, some arg)
unfolding split_space
split_space-append [] arg h = refl
split_space-append (c ∷ name) arg h =
    rw (split_space-append name arg h.1) (unfold isspace in ground (arith, h.0.0))

line_ends :
    (name arg : Bytes)
    → All IsNameByte name
    → name ≢ []
    → HeadIsSolid (reverse arg)
    → arg ≢ []
    → IsTrimmed (name ++ b' ' ∷ arg)
line_ends [] arg h k a b = absurd (k refl)
line_ends (c ∷ name) arg h k a b = (
  h.0.0,
  rw (reverse-append (c ∷ name) (b' ' ∷ arg), reverse-append (b' ' ∷ []) arg)
      (grow (reverse arg) a (ne arg b)),
)
  where
    grow :
        (r : Bytes)
        → HeadIsSolid r
        → r ≢ []
        → HeadIsSolid ((r ++ reverse (b' ' ∷ [])) ++ reverse (c ∷ name))
    grow [] p q = absurd (q refl)
    grow (x ∷ r) p q = p

    ne : (s : Bytes) → s ≢ [] → reverse s ≢ []
    ne s q e = q (sym (reverse-reverse s) ∙ ap reverse e)

abbrev pub command_line : Bytes → Bytes → Bytes
command_line name arg = name ++ b' ' ∷ arg

line_bytes :
    (P : ℕ → Type 0) (name arg : Bytes)
    → P b' '
    → All P name
    → All P arg
    → All P (command_line name arg)
line_bytes P name arg p h k = All-append P name (b' ' ∷ arg) h (p, k)

escape-append : (s t : Bytes) → escape (s ++ t) ≡ escape s ++ escape t
escape-append [] t = refl
escape-append (c ∷ s) t = elim (Bool-cases (c == 0xFF)) [
  | inl iac ↦ rw iac (ap (λ x. 0xFF ∷ 0xFF ∷ x) (escape-append s t))
  | inr plain ↦ rw plain (ap (◌∷◌ c) (escape-append s t))
]

name_no_line : (s : Bytes) → All IsNameByte s → All (λ c. c ≢ b'\n') s
name_no_line [] h = tt
name_no_line (c ∷ s) h = ((unfold isspace in ground (arith, h.0.0)), name_no_line s h.1)

name_no_data_mark : (s : Bytes) → All IsNameByte s → All (λ c. c ≢ 0xF4) s
name_no_data_mark [] h = tt
name_no_data_mark (c ∷ s) h = (h.0.1, name_no_data_mark s h.1)

argument_no_line : (s : Bytes) → All IsArgumentByte s → All (λ c. c ≢ b'\n') s
argument_no_line [] h = tt
argument_no_line (c ∷ s) h = (h.0.0, argument_no_line s h.1)

argument_no_data_mark : (s : Bytes) → All IsArgumentByte s → All (λ c. c ≢ 0xF4) s
argument_no_data_mark [] h = tt
argument_no_data_mark (c ∷ s) h = (h.0.1, argument_no_data_mark s h.1)

-- The parts of a line that a client may send: a name of one to seven bytes, and an argument of one
-- to 511 bytes without white space at its ends, neither with a zero byte.
pub record IsLine (name arg : Bytes) : Type 0 where
  pub name_bytes : All IsNameByte name
  pub name_ne_nil : name ≢ []
  pub name_fits : length name ≤ 7
  pub arg_bytes : All IsArgumentByte arg
  pub arg_ne_nil : arg ≢ []
  pub arg_trimmed : IsTrimmed arg
  pub arg_fits : length arg ≤ 511
  pub name_no_nul : All (λ c. c ≢ 0) name
  pub arg_no_nul : All (λ c. c ≢ 0) arg

length-ne-zero : (s : Bytes) → s ≢ [] → (length s == 0) ≡ false
length-ne-zero [] h = absurd (h refl)
length-ne-zero (c ∷ s) h = ground arith

command_line-ne-nil : (name arg : Bytes) → command_line name arg ≢ []
command_line-ne-nil [] arg e = cc
command_line-ne-nil (c ∷ name) arg e = cc

module _ (name arg : Bytes) (l : IsLine name arg) where
  pub no_line_end : All (λ c. c ≢ b'\n') (command_line name arg)
  no_line_end =
      line_bytes (λ c. c ≢ b'\n') name arg (λ e. cc) (name_no_line name l.name_bytes)
        (argument_no_line arg l.arg_bytes)

  text_line : cut_crlf (command_line name arg ++ crlf) ≡ command_line name arg
  text_line = cut_crlf-append (command_line name arg) no_line_end

  text_clean : All (λ c. c ≢ 0xF4) (command_line name arg ++ crlf)
  text_clean =
      All-append (λ c. c ≢ 0xF4) (command_line name arg) crlf
        (line_bytes (λ c. c ≢ 0xF4) name arg (λ e. cc) (name_no_data_mark name l.name_bytes)
          (argument_no_data_mark arg l.arg_bytes))
        ((λ e. cc), ((λ e. cc), tt))

  no_nul : All (λ c. c ≢ 0) (command_line name arg ++ crlf)
  no_nul =
      All-append (λ c. c ≢ 0) (command_line name arg) crlf
        (line_bytes (λ c. c ≢ 0) name arg (λ e. cc) l.name_no_nul l.arg_no_nul)
        ((λ e. cc), ((λ e. cc), tt))

  text-IsTrimmed : IsTrimmed (command_line name arg)
  text-IsTrimmed = line_ends name arg l.name_bytes l.name_ne_nil l.arg_trimmed.1 l.arg_ne_nil

  filled :
      fill_command (name, some arg)
      ≡ record { command = to_uppercase name; argument = arg; has_argument = true }
  unfolding fill_command
  filled =
      rw
        (
          trim_whitespace-eq_self arg l.arg_trimmed,
          take-eq_self 7 name l.name_fits,
          take-eq_self 511 arg l.arg_fits,
          length-ne-zero arg l.arg_ne_nil,
        )
        refl

  -- A line of a name and an argument, escaped for Telnet and ended by CR LF, is read back as that
  -- name in upper case with that argument, if it fits into the buffer: the name has one to seven
  -- bytes, none of them white space, zero or 0xF4, and the argument one to 511 bytes, none of them
  -- zero, LF or 0xF4, and no white space at its ends.
  pub parse_command-line :
      length (escape (command_line name arg)) + 2 < 530
      → parse_command (escape (command_line name arg) ++ crlf)
        ≡ some (record { command = to_uppercase name; argument = arg; has_argument = true })
  unfolding parse_command parse_filtered
  parse_command-line h =
      rw
        (
          kept,
          short,
          read,
          text_line,
          trim_whitespace-eq_self (command_line name arg) text-IsTrimmed,
          length-ne-zero (command_line name arg) (command_line-ne-nil name arg),
          split_space-append name arg l.name_bytes,
        )
        (ap some filled)
    where
      size :
          length (escape (command_line name arg) ++ crlf)
          ≡ length (escape (command_line name arg)) + 2
      size = length-append (escape (command_line name arg)) crlf

      whole : escape (command_line name arg ++ crlf) ≡ escape (command_line name arg) ++ crlf
      whole = escape-append (command_line name arg) crlf

      kept :
          c_string (escape (command_line name arg) ++ crlf) ≡ escape (command_line name arg) ++ crlf
      kept =
          ap c_string (sym whole)
          ∙ c_string-eq_self (escape (command_line name arg ++ crlf))
              (All-escape (λ c. c ≢ 0) (λ e. cc) (command_line name arg ++ crlf) no_nul)
          ∙ whole

      short : leb 530 (length (escape (command_line name arg) ++ crlf)) ≡ false
      short = ground (arith, size)

      read : filter_telnet (escape (command_line name arg) ++ crlf) ≡ command_line name arg ++ crlf
      read =
          ap filter_telnet (sym (ap c_string whole ∙ kept))
          ∙ filter_telnet-escape (command_line name arg ++ crlf) text_clean no_nul
              (omega (arith, ap length whole, size, h))
