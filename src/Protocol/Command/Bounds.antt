-- ===== src/Protocol/Command/Bounds.antt =====
-- The size and form of a parsed command.
use simple_ftp.Base.{
  ℕ, suc, ◌<◌, ◌≡◌, refl, some_inj, ap, subst, ◌≢◌, ◌↔◌, true, false, not, Option, none, some, [],
  ◌∷◌, leb, ◌==◌, if◌then◌else◌, length, take, length-take, Bool-cases, inl, inr, arith,
}
use simple_ftp.CString.{Bytes, c_string, isspace}
use simple_ftp.CString.Laws.{toupper_idem}
use simple_ftp.Utils.{to_uppercase, trim_whitespace}
use simple_ftp.Utils.Trim.{HeadIsSolid, trim_whitespace_lem}
use simple_ftp.Protocol.Types.{Command, max_cmd_name, max_cmd_arg}
use simple_ftp.Protocol.Telnet.{filter_telnet}
use simple_ftp.Protocol.Command.{cut_crlf, split_space, fill_command, parse_filtered, parse_command}

-- What `cmd_dispatch` and the handlers rely on: the name fits its field, is not empty and is in
-- upper case, the argument fits its field, and the flag says whether there is one.
pub record IsParsed (c : Command) : Type 0 where
  pub name_fits : length c.command < max_cmd_name
  pub name_ne_nil : c.command ≢ []
  pub name_upper : to_uppercase c.command ≡ c.command
  pub argument_fits : length c.argument < max_cmd_arg
  pub flag : (c.has_argument ≡ true) ↔ (c.argument ≢ [])

pub to_uppercase_idem : (s : Bytes) → to_uppercase (to_uppercase s) ≡ to_uppercase s
to_uppercase_idem [] = refl
to_uppercase_idem (c ∷ s) = cc (toupper_idem c, to_uppercase_idem s)

length-to_uppercase : (s : Bytes) → length (to_uppercase s) ≡ length s
length-to_uppercase [] = refl
length-to_uppercase (c ∷ s) = ap suc (length-to_uppercase s)

map-ne-nil : (n : ℕ) (s : Bytes) → s ≢ [] → to_uppercase (take (suc n) s) ≢ []
map-ne-nil n [] h e = h refl
map-ne-nil n (c ∷ s) h e = cc

flag_lem : (s : Bytes) → (not (length s == 0) ≡ true) ↔ (s ≢ [])
flag_lem [] = ((λ e. cc), (λ h. absurd (h refl)))
flag_lem (c ∷ s) = ((λ e f. cc), (λ h. ground arith))

fill_command-IsParsed : (p : Bytes × Option Bytes) → p.0 ≢ [] → IsParsed (fill_command p)
unfolding fill_command
fill_command-IsParsed (name, none) h = record {
  name_fits = omega (arith, length-to_uppercase (take 7 name), length-take {0} 7 name);
  name_ne_nil = map-ne-nil 6 name h;
  name_upper = to_uppercase_idem (take 7 name);
  argument_fits = omega arith;
  flag = ((λ e. cc), (λ k. absurd (k refl)));
}
fill_command-IsParsed (name, some rest) h = record {
  name_fits = omega (arith, length-to_uppercase (take 7 name), length-take {0} 7 name);
  name_ne_nil = map-ne-nil 6 name h;
  name_upper = to_uppercase_idem (take 7 name);
  argument_fits = omega (arith, length-take {0} 511 (trim_whitespace rest));
  flag = flag_lem (take 511 (trim_whitespace rest));
}

split_space-ne-nil : (s : Bytes) → HeadIsSolid s → s ≢ [] → (split_space s).0 ≢ []
unfolding split_space isspace
split_space-ne-nil [] h k = absurd (k refl)
split_space-ne-nil (c ∷ s) h k = ground arith

parse_filtered-IsParsed : (s : Bytes) {c : Command} → parse_filtered s ≡ some c → IsParsed c
unfolding parse_filtered
parse_filtered-IsParsed s {c} e = of_trimmed (trim_whitespace (cut_crlf s)) solid e
  where
    solid : HeadIsSolid (trim_whitespace (cut_crlf s))
    solid = let (pre, post, f, a, b, h) = trim_whitespace_lem (cut_crlf s) in h.0

    of_trimmed :
        (t : Bytes)
        → HeadIsSolid t
        → (if length t == 0 then none else some (fill_command (split_space t))) ≡ some c
        → IsParsed c
    of_trimmed [] h k = absurd (cc)
    of_trimmed (x ∷ t) h k =
        let full : (length (x ∷ t) == 0) ≡ false = ground arith in
        subst IsParsed (some_inj (rw full at k))
          (fill_command-IsParsed (split_space (x ∷ t)) (split_space-ne-nil (x ∷ t) h (λ q. cc)))

-- Whatever line `proto_parse_command` accepts, the command that it fills in is well formed.
pub parse_command-IsParsed : (line : Bytes) {c : Command} → parse_command line ≡ some c → IsParsed c
unfolding parse_command
parse_command-IsParsed line e = elim (Bool-cases (leb 530 (length (c_string line)))) [
  | inl long ↦ absurd (cc (rw long at e))
  | inr short ↦ parse_filtered-IsParsed (filter_telnet (c_string line)) (rw short at e)
]
