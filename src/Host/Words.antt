-- ===== src/Host/Words.antt =====
-- The words and lines of a text: `split_whitespace`, `lines` and `trim` of Rust's `str`, of ASCII
-- text. Whitespace outside of ASCII is not looked for.
use rust_app.Prelude.{ℕ, Bool, ◌&&◌, ◌||◌, List, [], ◌∷◌, ◌++◌, leb, nat_eq, if◌then◌else◌}
use rust_app.Prelude.Text.{Text}
use mathlib.Core.List.{reverse}

-- `char::is_ascii_whitespace`, and the vertical tab, which `split_whitespace` takes too.
abbrev is_space : ℕ → Bool
is_space c = nat_eq c 32 || (leb 9 c && leb c 13)

-- `split_whitespace`, with the word that is being read.
close_word : Text → List Text → List Text
close_word [] rest = rest
close_word (c ∷ w) rest = (c ∷ w) ∷ rest

words_from : Text → Text → List Text
unfolding close_word
words_from word [] = close_word word []
words_from word (c ∷ s) =
    let more = words_from (word ++ (c ∷ [])) s in
    let next = words_from [] s in if is_space c then close_word word next else more

unfoldable pub split_whitespace : Text → List Text
unfolding words_from
split_whitespace = words_from []

-- The parts between line feeds. `lines` takes a carriage return off too, which is white space.
lines_from : Text → Text → List Text
lines_from [] [] = []
lines_from (d ∷ line) [] = (d ∷ line) ∷ []
lines_from line (c ∷ s) =
    let more = lines_from (line ++ (c ∷ [])) s in
    let next = lines_from [] s in if nat_eq c 10 then line ∷ next else more

unfoldable pub lines : Text → List Text
unfolding lines_from
lines = lines_from []

trim_start : Text → Text
trim_start [] = []
trim_start (c ∷ s) = let rest = trim_start s in if is_space c then rest else c ∷ s

unfoldable pub trim : Text → Text
unfolding trim_start
trim s = reverse (trim_start (reverse (trim_start s)))
