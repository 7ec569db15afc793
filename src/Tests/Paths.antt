-- ===== src/Tests/Paths.antt =====
-- Paths of server/src/session.c and server/src/protocol.c at concrete inputs.

use simple_ftp.Base.{
  ℕ, zero, suc, ◌+◌, ◌*◌, ◌≡◌, ◌≢◌, refl, Bool, true, not, ◌&&◌, some, List, [], ◌∷◌, ◌++◌, map,
  reverse, ◌==◌, length, All, arith,
}
use simple_ftp.CString.{Bytes, codes, contains, starts_with}
use simple_ftp.CString.Tokens.{tokens, tokens_go, joined}
use simple_ftp.Protocol.PathText.{
  normalize_path, forward_slash, has_refused, is_refused, validate_path,
}
use simple_ftp.Protocol.PathText.Forms.{IsNormal, NoBackslash}
use simple_ftp.Protocol.PathText.Laws.{normalize_path_lem}
use simple_ftp.Session.Path.{root, is_absolute, resolve_virtual, check_path}
use simple_ftp.Session.Path.Walk.{IsComponent, Walk}
use simple_ftp.Session.Path.Stack.{render}
use simple_ftp.Session.Path.Confined.{IsVirtual, resolve_virtual-IsVirtual}
use simple_ftp.Session.Path.Stable.{resolve_virtual-eq_self}
use simple_ftp.Session.Path.Refines.{resolve_virtual-Walk, start_names}
use simple_ftp.Session.Path.Truncated.{resolve_virtual-drops}

abbrev base : Bytes
base = codes "/pub/a"

resolves : resolve_virtual (codes "/pub") (codes "b/.././a") ≡ some base
unfolding resolve_virtual normalize_path validate_path tokens contains
resolves = refl

resolve_virtual-IsVirtual_example : IsVirtual base
unfolding resolve_virtual normalize_path validate_path tokens contains
resolve_virtual-IsVirtual_example =
    resolve_virtual-IsVirtual (codes "/pub") (codes "b/.././a") refl refl

lacks : ℕ → Bytes → Bool
lacks c [] = true
lacks c (x ∷ s) = not (x == c) && lacks c s

lacks-All : (c : ℕ) (s : Bytes) → lacks c s ≡ true → All (λ x. x ≢ c) s
unfolding lacks
lacks-All c [] h = tt
lacks-All c (x ∷ s) h = (ground (arith, h), lacks-All c s (ground (arith, h)))

base-IsVirtual : IsVirtual base
unfolding lacks contains has_refused is_refused starts_with
base-IsVirtual = record {
  names = codes "pub" ∷ codes "a" ∷ [];
  spelled = refl;
  components = (
    (((λ e. cc), lacks-All b'/' (codes "pub") refl), (λ e. cc), (λ e. cc)),
    ((((λ e. cc), lacks-All b'/' (codes "a") refl), (λ e. cc), (λ e. cc)), tt),
  );
  few = omega arith;
  short = omega arith;
  no_dot_dot = refl;
  printable = refl;
  no_backslash = lacks-All b'\\' base refl;
}

resolve_virtual-eq_self_example : resolve_virtual (codes "/etc") base ≡ some base
resolve_virtual-eq_self_example = resolve_virtual-eq_self base-IsVirtual (codes "/etc")

resolve_virtual-Walk_example :
    (names : List Bytes) × Walk
      (reverse (start_names (codes "pub" ∷ codes "a" ∷ []) (codes "../b")))
      (tokens (map forward_slash (codes "../b")))
      (reverse names)
    × (resolve_virtual base (codes "../b") ≡ check_path (render names))
unfolding tokens tokens_go forward_slash base-IsVirtual
resolve_virtual-Walk_example =
    resolve_virtual-Walk base-IsVirtual (codes "../b") (omega arith) (omega arith)

normalize_path_example :
    IsNormal (codes "/a/b")
    × (tokens (codes "/a/b") ≡ tokens (map forward_slash (codes "/a\\\\b//")))
    × (normalize_path (codes "/a/b") 10 ≡ some (codes "/a/b"))
unfolding normalize_path
normalize_path_example = normalize_path_lem (codes "/a\\\\b//") 1024 10 refl (omega arith)

-- Names of one letter.
many : ℕ → List Bytes
many zero = []
many (suc n) = codes "a" ∷ many n

one_name : IsComponent (codes "a")
one_name = (((λ e. cc), (omega arith, tt)), (λ e. cc), (λ e. cc))

many-IsComponent : (n : ℕ) → All IsComponent (many n)
unfolding many
many-IsComponent zero = tt
many-IsComponent (suc n) = (one_name, many-IsComponent n)

many-NoBackslash : (n : ℕ) → NoBackslash (joined (many n ++ codes ".." ∷ []))
unfolding many
many-NoBackslash zero = (omega arith, (omega arith, (omega arith, tt)))
many-NoBackslash (suc n) = (omega arith, (omega arith, many-NoBackslash n))

many-length :
    (n : ℕ) → (length (many n) ≡ n) × (length (joined (many n ++ codes ".." ∷ [])) ≡ 2 * n + 3)
unfolding many
many-length zero = (refl, refl)
many-length (suc n) = (omega (arith, (many-length n).0), omega (arith, (many-length n).1))

resolve_virtual-drops_example :
    resolve_virtual root (joined (many 256 ++ codes ".." ∷ [])) ≡ check_path (render (many 256))
unfolding is_absolute
resolve_virtual-drops_example =
    resolve_virtual-drops root refl (many 256) (many-IsComponent 256) (codes ".." ∷ [])
      (many-length 256).0 (((λ e. cc), (omega arith, (omega arith, tt))), tt) (many-NoBackslash 256)
      (omega (arith, (many-length 256).1))
