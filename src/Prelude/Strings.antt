-- ===== src/Prelude/Strings.antt =====
-- JavaScript strings as lists of UTF-16 code units: equality, `startsWith`, `includes`, `trim`.
use Prim.Native.Nat.{ℕ, ◌+◌}
use Prim.Native.Char.{code}
use Prim.Native.String.{String}
use mathlib.Core.Path.{◌≡◌, refl, ◌∙◌}
use mathlib.Core.Logic.{◌↔◌}
use mathlib.Core.Bool.{Bool, true, false, ◌&&◌, ◌||◌}
use mathlib.Core.List.{List, [], ◌∷◌, ◌++◌, reverse}
use native.Mathlib.Omega.{arith}
use taksees.Prelude.Tests.{leb, ◌==◌, ==_self, if◌then◌else◌}
use taksees.Prelude.Lists.{
  all, is_empty, drop_while, is_empty-reverse, is_empty-drop_while, all-reverse, all-drop_while,
}

abbrev pub Text : Type 0
Text = List ℕ

-- The code units of a literal, whose characters are all in the basic plane in this development.
abbrev pub codes : String → Text
codes String.[] = []
codes (String.◌∷◌ c s) = code c ∷ codes s

-- `a === b` on strings
infix 50 ◌===◌
unfoldable pub ◌===◌ : Text → Text → Bool
[] === [] = true
[] === (d ∷ t) = false
(c ∷ s) === [] = false
(c ∷ s) === (d ∷ t) = c == d && s === t

pub ===_iff : (s t : Text) → ((s === t) ≡ true) ↔ (s ≡ t)
unfolding ◌===◌
===_iff [] [] = (λ _. refl, λ _. refl)
===_iff [] (d ∷ t) = (λ e. cc, λ e. cc)
===_iff (c ∷ s) [] = (λ e. cc, λ e. cc)
===_iff (c ∷ s) (d ∷ t) = ground (arith, ===_iff s t)

pub ===_self : (s : Text) → (s === s) ≡ true
===_self s = (===_iff s s).1 refl

-- `s.startsWith(p)`
abbrev pub starts_with : Text → Text → Bool
starts_with s [] = true
starts_with [] (d ∷ p) = false
starts_with (c ∷ s) (d ∷ p) = c == d && starts_with s p

-- `texts.includes(s)`
abbrev pub includes : List Text → Text → Bool
includes [] s = false
includes (t ∷ ts) s = t === s || includes ts s

-- `s.includes(c)` for one code unit
abbrev pub includes_unit : Text → ℕ → Bool
includes_unit [] d = false
includes_unit (c ∷ s) d = c == d || includes_unit s d

-- `s.includes(part)`
abbrev pub includes_text : Text → Text → Bool
includes_text [] part = is_empty part
includes_text (c ∷ s) part = starts_with (c ∷ s) part || includes_text s part

abbrev pub onto_first : ℕ → List Text → List Text
onto_first c [] = (c ∷ []) ∷ []
onto_first c (t ∷ ts) = (c ∷ t) ∷ ts

-- `s.split(sep)` for one code unit
unfoldable pub split_on : ℕ → Text → List Text
split_on sep [] = [] ∷ []
split_on sep (c ∷ s) =
    let parts = split_on sep s in if c == sep then [] ∷ parts else onto_first c parts

-- What stands before the first separator is the first part.
pub split_on-append :
    (sep : ℕ) (s t : Text)
    → includes_unit s sep ≡ false
    → split_on sep (s ++ sep ∷ t) ≡ s ∷ split_on sep t
unfolding split_on
split_on-append sep [] t h = rw (==_self sep) refl
split_on-append sep (c ∷ s) t h = ground (arith, split_on-append sep s t)

pub split_on_plain : (sep : ℕ) (s : Text) → includes_unit s sep ≡ false → split_on sep s ≡ s ∷ []
unfolding split_on
split_on_plain sep [] h = refl
split_on_plain sep (c ∷ s) h = ground (arith, split_on_plain sep s)

-- `texts.join(sep)`
unfoldable pub join : Text → List Text → Text
join sep [] = []
join sep (s ∷ []) = s
join sep (s ∷ t ∷ ts) = s ++ (sep ++ join sep (t ∷ ts))

-- The code units that `\s` matches and that `trim` removes.
unfoldable pub is_space : ℕ → Bool
is_space c =
    (leb 9 c && leb c 13)
    || c == 32
    || c == 0xa0
    || c == 0x1680
    || (leb 0x2000 c && leb c 0x200a)
    || c == 0x2028
    || c == 0x2029
    || c == 0x202f
    || c == 0x205f
    || c == 0x3000
    || c == 0xfeff

-- `s.trim()`
abbrev pub trim_start : Text → Text
trim_start = drop_while is_space

unfoldable pub trim : Text → Text
trim s = reverse (trim_start (reverse (trim_start s)))

unfoldable pub is_digit : ℕ → Bool
is_digit c = leb b'0' c && leb c b'9'

pub is_digit-not_space : (c : ℕ) → is_digit c ≡ true → is_space c ≡ false
unfolding is_digit is_space
is_digit-not_space c h = ground arith

-- ASCII part of `s.toLowerCase()` on one code unit
unfoldable pub to_lower : ℕ → ℕ
to_lower c = if leb b'A' c && leb c b'Z' then c + 32 else c

pub to_lower_idem : (c : ℕ) → to_lower (to_lower c) ≡ to_lower c
unfolding to_lower
to_lower_idem c = ground arith

-- A text is blank after `trim` exactly when it holds white space only.
pub is_empty-trim : (s : Text) → is_empty (trim s) ≡ all is_space s
unfolding trim
is_empty-trim s =
    is_empty-reverse (trim_start (reverse (trim_start s)))
    ∙ is_empty-drop_while is_space (reverse (trim_start s))
    ∙ all-reverse is_space (trim_start s)
    ∙ all-drop_while is_space s
