-- ===== src/Regexp.antt =====
-- Package regexp, which is outside this repository. A compiled expression is known by its text.
use vpub_exporter.Prelude.{Bool, true, false, List, [], ◌∷◌}
use vpub_exporter.Text.{Bytes}

-- The engine: which texts compile, and FindStringSubmatch, whose result is empty for no match and
-- otherwise holds the match and its groups.
pub record Engine : Type 0 where
  pub compiles : Bytes → Bool
  pub find_string_submatch : Bytes → Bytes → List Bytes

abbrev pub is_match : List Bytes → Bool
is_match [] = false
is_match (m ∷ ms) = true

-- p.MatchString(line): there is a match.
abbrev pub match_string : Engine → Bytes → Bytes → Bool
match_string re p line = is_match (re.find_string_submatch p line)
