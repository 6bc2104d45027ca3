-- ===== src/Prelude/Texts.antt =====
-- `bytes.rsplit(b".", 1)`: a text is split at its last dot.
use Prim.Native.Char.{Char, code}
use Prim.Native.String.{String, [], ◌∷◌, ◌++◌}
use Prim.Native.String.append
use mathlib.Core.Path.{◌≡◌, refl}
use mathlib.Core.Option.{Option, none, some}
use threat_hunting_platform.Prelude.Tests.{◌==◌, nat_Eq, if◌then◌else◌}

-- A dot splits the text unless a later one does.
abbrev dot_or : Char → String → Option (String × String) → Option (String × String)
dot_or c t (some (a, b)) = some (c ∷ a, b)
dot_or c t none = if code c == b'.' then some ([], t) else none

-- `none` where there is no dot, and the two parts do not unpack.
unfoldable pub rsplit_dot : String → Option (String × String)
rsplit_dot [] = none
rsplit_dot (c ∷ t) = dot_or c t (rsplit_dot t)

pub rsplit_dot-append :
    (a b : String) → rsplit_dot b ≡ none → rsplit_dot (a ++ "." ++ b) ≡ some (a, b)
unfolding rsplit_dot
rsplit_dot-append [] b h = rw (append.nil ("." ++ b), append.cons "." "" b, append.nil b, h) refl
rsplit_dot-append (c ∷ a) b h = rw (append.cons c a ("." ++ b), rsplit_dot-append a b h) refl
