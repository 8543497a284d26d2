-- ===== src/Storage/Path.antt =====
-- The two functions of Node's `path` module that local-storage.service.ts calls, on POSIX:
-- `path.posix.normalize` and `path.resolve`.
pub mod Walk
pub mod Split
pub mod Normal
use taksees.Prelude.{
  ℕ, Bool, true, false, not, ◌||◌, List, [], ◌∷◌, ◌++◌, reverse, Text, codes, ◌==◌, ◌===◌,
  if◌then◌else◌, is_empty, starts_with, join,
}

abbrev pub dot : Text
dot = codes "."

abbrev pub dot_dot : Text
dot_dot = codes ".."

abbrev pub slash : Text
slash = codes "/"

abbrev pub cons_head : ℕ → List Text → List Text
cons_head c [] = (c ∷ []) ∷ []
cons_head c (p ∷ ps) = (c ∷ p) ∷ ps

-- The parts of a path between its slashes.
unfoldable pub split : Text → List Text
split [] = [] ∷ []
split (c ∷ s) = let parts = split s in if c == b'/' then [] ∷ parts else cons_head c parts

-- A `..`: it removes the part on top, but not another `..`.
unfoldable pub climb : Bool → List Text → List Text
climb above [] = if above then dot_dot ∷ [] else []
climb above (top ∷ stack) =
    if top === dot_dot then (if above then dot_dot ∷ top ∷ stack else top ∷ stack) else stack

-- One part against the stack of the parts so far, the last on top. `above` says whether a `..` that
-- has nothing to remove stays.
unfoldable pub step : Bool → List Text → Text → List Text
step above stack part =
    if is_empty part || part === dot
    then stack
    else if part === dot_dot
    then climb above stack
    else part ∷ stack

unfoldable pub walk : Bool → List Text → List Text → List Text
walk above stack [] = stack
walk above stack (part ∷ parts) = walk above (step above stack part) parts

-- `normalizeString(path, allowAboveRoot)`
unfoldable pub normal_parts : Bool → Text → List Text
normal_parts above path = reverse (walk above [] (split path))

unfoldable pub ends_with_slash : Text → Bool
ends_with_slash [] = false
ends_with_slash (c ∷ []) = c == b'/'
ends_with_slash (c ∷ d ∷ s) = ends_with_slash (d ∷ s)

abbrev pub is_absolute : Text → Bool
is_absolute path = starts_with path slash

-- What `normalize` does with the normal parts of a relative path.
unfoldable pub relative : List Text → Bool → Text
relative [] trailing = if trailing then codes "./" else dot
relative (p ∷ ps) trailing = if trailing then join slash (p ∷ ps) ++ slash else join slash (p ∷ ps)

unfoldable pub absolute : List Text → Bool → Text
absolute [] trailing = slash
absolute (p ∷ ps) trailing =
    slash ++ (if trailing then join slash (p ∷ ps) ++ slash else join slash (p ∷ ps))

-- `path.posix.normalize(path)`
unfoldable pub normalize : Text → Text
normalize [] = dot
normalize (c ∷ s) =
    if c == b'/'
    then absolute (normal_parts false (c ∷ s)) (ends_with_slash (c ∷ s))
    else relative (normal_parts true (c ∷ s)) (ends_with_slash (c ∷ s))

-- The loop of `resolve`, from the last argument on; the working directory stands behind the first.
unfoldable pub resolve_join : List Text → Text → Text
resolve_join [] acc = acc
resolve_join (p ∷ ps) acc =
    let further = resolve_join ps (p ++ (slash ++ acc)) in
    let skipped = resolve_join ps acc in
    if is_empty p then skipped else if is_absolute p then p ++ (slash ++ acc) else further

-- The absolute path of the given parts.
unfoldable pub abs_path : List Text → Text
abs_path parts = slash ++ join slash parts

-- `path.resolve(...args)`, in an absolute working directory
unfoldable pub resolve : Text → List Text → Text
resolve cwd args = abs_path (normal_parts false (resolve_join (reverse args ++ cwd ∷ []) []))
