-- ===== src/Prelude/Text.antt =====
-- Texts put together, as `+=` and `write!` do.
use Prim.Native.Nat.{ℕ, zero, suc, ◌%◌, ◌/◌}
use Prim.Native.Char.{code}
use Prim.Native.String
use mathlib.Core.Bool.{Bool, false}
use mathlib.Core.Option.{Option, none, some}
use maplib.Prelude.Tests.{if◌then◌else◌, nat_eq}
use Prim.Native.String.{String}
use mathlib.Core.List.{List, [], ◌∷◌}

abbrev pub concat : List String → String
concat [] = ""
concat (s ∷ ss) = String.◌++◌ s (concat ss)

-- the text of a number below ten
abbrev digit : ℕ → List String → String
digit n [] = ""
digit zero (s ∷ ss) = s
digit (suc n) (s ∷ ss) = digit n ss

abbrev digit_texts : List String
digit_texts = "0" ∷ "1" ∷ "2" ∷ "3" ∷ "4" ∷ "5" ∷ "6" ∷ "7" ∷ "8" ∷ "9" ∷ []

-- the digits of n in front of a text, from the last one on; `fuel` bounds their number
abbrev digits : ℕ → ℕ → String → String
digits zero n text = text
digits (suc fuel) n text =
    let here = String.◌++◌ (digit (n % 10) digit_texts) text in
    let rest = digits fuel (n / 10) here in elim (n / 10) [ zero ↦ here | suc m ↦ rest ]

-- `n.to_string()`: a number has no more digits than n + 1
abbrev pub to_string : ℕ → String
to_string n = digits (suc n) n ""

-- `text.strip_prefix(prefix)`
unfoldable pub strip_prefix : String → String → Option String
strip_prefix String.[] text = some text
strip_prefix (String.◌∷◌ c prefix) String.[] = none
strip_prefix (String.◌∷◌ c prefix) (String.◌∷◌ d text) =
    let rest = strip_prefix prefix text in if nat_eq (code c) (code d) then rest else none

-- `text.split_once(c)`
unfoldable pub split_once : ℕ → String → Option (String × String)
split_once c String.[] = none
split_once c (String.◌∷◌ d text) =
    let rest = split_once c text in
    if nat_eq (code d) c
    then some ("", text)
    else (elim rest [ none ↦ none | some (before, after) ↦ some (String.◌∷◌ d before, after) ])

-- `text.ends_with(c)`
unfoldable pub ends_with : ℕ → String → Bool
ends_with c String.[] = false
ends_with c (String.◌∷◌ d String.[]) = nat_eq (code d) c
ends_with c (String.◌∷◌ d (String.◌∷◌ e text)) = ends_with c (String.◌∷◌ e text)
