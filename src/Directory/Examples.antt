-- ===== src/Directory/Examples.antt =====
-- A quoted value with a delimiter, and a field's name.
use rss_identity.Common.{[], ◌∷◌, List, ◌≤◌, ◌≡◌, refl, false, ◌++◌, arith, any, ok}
use rss_identity.Common.Text.{Text, codes, bytes, len, is_control}
use rss_identity.Directory.Value.{value}
use rss_identity.Directory.Quoting.{quoted, escape, value-quoted}
use rss_identity.Directory.Names.{names, join, repeats, IsNames, names-eq-ok_iff}

plain : any is_control (codes "O'Hara; R&D") ≡ false
unfolding is_control
plain = refl

short : len (codes "O'Hara; R&D") ≤ 1024
unfolding bytes
short = omega arith

value-quoted_example :
    value (quoted (codes "O'Hara; R&D") ++ codes ";x") ≡ ok (codes "O'Hara; R&D", codes ";x")
value-quoted_example = value-quoted (codes "O'Hara; R&D") (codes ";x") plain short

escapes : quoted (codes "O'H") ≡ codes "'O\\'H'"
unfolding escape
escapes = refl

abbrev asked : List Text
asked = codes "login" ∷ codes "email" ∷ []

asked-IsNames : IsNames (codes "login,email") asked
unfolding repeats bytes join
asked-IsNames = record {
  joined = joins;
  short = omega arith;
  some_name = refl;
  few = omega arith;
  sized = refl;
  distinct = refl;
  pieces = (refl, (refl, tt));
}
  where
    joins : join asked ≡ codes "login,email"
    joins = refl

names-eq-ok_iff_example : names (codes "login,email") ≡ ok asked
names-eq-ok_iff_example = (names-eq-ok_iff (codes "login,email") asked).1 asked-IsNames
