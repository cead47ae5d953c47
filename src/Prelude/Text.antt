-- ===== src/Prelude/Text.antt =====
-- What the program uses of JavaScript's text functions, over code points.
use Prim.Native.Nat.{ℕ, Ordering}
use Prim.Native.Char.{Char, code}
use Prim.Native.String.{String, compare as compare_text}
use mathlib.Core.Bool.{Bool, true, false, ◌&&◌, ◌||◌}
use mathlib.Core.Path.{◌≡◌, refl}
use mathlib.Core.List.{List, [], ◌∷◌}
use rival_hub_broadcast.Prelude.Tests.{leb, eqb, if◌then◌else◌}
use rival_hub_broadcast.Prelude.Classes.{◌==◌, string_eq}

-- `a <= b` on texts.
abbrev pub text_le : String → String → Bool
text_le a b = elim (compare_text a b) [ Ordering.gt ↦ false | _ ↦ true ]

-- The white space and line terminators of ECMAScript, which `trim` and `\s` share.
pub is_space : Char → Bool
is_space c =
    let n = code c in
    (leb 9 n && leb n 13)
    || eqb n 32
    || eqb n 160
    || eqb n 5760
    || (leb 8192 n && leb n 8202)
    || eqb n 8232
    || eqb n 8233
    || eqb n 8239
    || eqb n 8287
    || eqb n 12288
    || eqb n 65279

pub trim_start : String → String
trim_start String.[] = ""
trim_start (String.◌∷◌ c s) = if is_space c then trim_start s else String.◌∷◌ c s

pub trim_end : String → String
trim_end String.[] = ""
trim_end (String.◌∷◌ c s) =
    let rest = trim_end s in if is_space c && rest == "" then "" else String.◌∷◌ c rest

unfoldable pub trim : String → String
unfolding is_space trim_start trim_end
trim s = trim_end (trim_start s)

-- `s.trim().length > 0`
unfoldable pub is_blank : String → Bool
unfolding trim
is_blank s = trim s == ""

abbrev alphabet : List (ℕ × Char)
alphabet =
    (65, "a")
    ∷ (66, "b")
    ∷ (67, "c")
    ∷ (68, "d")
    ∷ (69, "e")
    ∷ (70, "f")
    ∷ (71, "g")
    ∷ (72, "h")
    ∷ (73, "i")
    ∷ (74, "j")
    ∷ (75, "k")
    ∷ (76, "l")
    ∷ (77, "m")
    ∷ (78, "n")
    ∷ (79, "o")
    ∷ (80, "p")
    ∷ (81, "q")
    ∷ (82, "r")
    ∷ (83, "s")
    ∷ (84, "t")
    ∷ (85, "u")
    ∷ (86, "v")
    ∷ (87, "w")
    ∷ (88, "x")
    ∷ (89, "y")
    ∷ (90, "z")
    ∷ []

lower_by : List (ℕ × Char) → Char → Char
lower_by [] c = c
lower_by ((n, d) ∷ table) c = if eqb (code c) n then d else lower_by table c

-- `toLowerCase` on ASCII text; other letters stay.
unfoldable pub to_lower : String → String
unfolding lower_by
to_lower String.[] = ""
to_lower (String.◌∷◌ c s) = String.◌∷◌ (lower_by alphabet c) (to_lower s)

-- `replace(/\s+/g, ' ')`; the flag says that the run of spaces has been written.
collapse : Bool → String → String
collapse seen String.[] = ""
collapse seen (String.◌∷◌ c s) =
    let rest = collapse (is_space c) s in
    if is_space c then (if seen then rest else String.◌∷◌ " " rest) else String.◌∷◌ c rest

unfoldable pub collapse_spaces : String → String
unfolding collapse is_space
collapse_spaces s = collapse false s

text_runs : (collapse_spaces (to_lower (trim "  Dust \t II "))) ≡ "dust ii"
unfolding collapse_spaces to_lower trim
text_runs = refl
