-- ===== src/Storage/Path/Normal.antt =====
-- The text that `normalize` gives for a relative path, and what `resolve` makes of it.
use mathlib.Core.List.{reverse_aux, append-nil, append_assoc, reverse-reverse}
use taksees.Prelude.{
  ℕ, ◌≡◌, ◌≢◌, refl, sym, ap, ap₂, ◌∙◌, Bool, true, false, ◌||◌, ◌&&◌, Bool-cases, ==_iff, inl, inr,
  List, [], ◌∷◌, ◌++◌, reverse, Text, arith, codes, ◌===◌, ◌==◌, is_empty, starts_with, All, join,
}
use taksees.Storage.Path.{
  dot, dot_dot, slash, split, step, walk, normal_parts, relative, is_absolute, resolve_join,
  resolve, abs_path,
}
use taksees.Storage.Path.Walk.{NoSlash, IsName, walk-append, walk_of_names}
use taksees.Storage.Path.Split.{split-append_slash, walk-split-join}

pub names-NoSlash : (ps : List Text) → All IsName ps → All NoSlash ps
names-NoSlash [] h = tt
names-NoSlash (p ∷ ps) ((_, _, _, n), h) = (n, names-NoSlash ps h)

walk_of_blank : (above : Bool) (stack : List Text) → walk above stack (split []) ≡ stack
unfolding split walk step
walk_of_blank above stack = refl

walk_of_dot : (above : Bool) (stack : List Text) → walk above stack (split dot) ≡ stack
unfolding split walk step ◌===◌
walk_of_dot above stack = refl

walk-slash :
    (above : Bool) (stack : List Text) (s : Text)
    → walk above stack (split (s ++ slash)) ≡ walk above stack (split s)
walk-slash above stack s =
    ap (walk above stack) (split-append_slash s [])
    ∙ walk-append above stack (split s) (split [])
    ∙ walk_of_blank above (walk above stack (split s))

walk-join :
    (above : Bool) (stack ps : List Text)
    → All IsName ps
    → walk above stack (split (join slash ps)) ≡ reverse_aux ps stack
walk-join above stack ps h =
    walk-split-join above stack ps (names-NoSlash ps h) ∙ walk_of_names above stack ps h

-- Reading a normalised relative path pushes its names.
walk-relative :
    (above : Bool) (stack ps : List Text) (trailing : Bool)
    → All IsName ps
    → walk above stack (split (relative ps trailing)) ≡ reverse_aux ps stack
unfolding relative
walk-relative above stack [] true h = walk-slash above stack dot ∙ walk_of_dot above stack
walk-relative above stack [] false h = walk_of_dot above stack
walk-relative above stack (p ∷ ps) true h =
    walk-slash above stack (join slash (p ∷ ps)) ∙ walk-join above stack (p ∷ ps) h
walk-relative above stack (p ∷ ps) false h = walk-join above stack (p ∷ ps) h

-- The tests of `resolveKey` on a normalised key.
abbrev pub climbs : Text → Bool
climbs s = s === dot_dot || starts_with s (codes "../")

pub climbs-relative :
    (ps : List Text) (trailing : Bool) → climbs (relative (dot_dot ∷ ps) trailing) ≡ true
unfolding relative join ◌===◌
climbs-relative [] true = refl
climbs-relative [] false = refl
climbs-relative (p ∷ ps) true = refl
climbs-relative (p ∷ ps) false = refl

not_two : (c d : ℕ) → (c ∷ d ∷ []) ≢ dot_dot → (c == b'.' && d == b'.') ≡ false
not_two c d h = elim (Bool-cases (c == b'.')) [
  | inr other ↦ rw other
  | inl same ↦ elim (Bool-cases (d == b'.')) [
    | inr other ↦ ground arith
    | inl also ↦
        absurd (h (ap₂ (λ x y. x ∷ y ∷ []) ((==_iff c b'.').0 same) ((==_iff d b'.').0 also)))
  ]
]

name-not_climbs : (p : Text) → IsName p → climbs p ≡ false
unfolding ◌===◌
name-not_climbs [] h = refl
name-not_climbs (c ∷ []) h = ground arith
name-not_climbs (c ∷ d ∷ []) (_, _, h, _) = ground (arith, not_two c d h)
name-not_climbs (c ∷ d ∷ e ∷ p) h = ground arith

name_slash-not_climbs : (p r : Text) → IsName p → climbs (p ++ b'/' ∷ r) ≡ false
unfolding ◌===◌
name_slash-not_climbs [] r (h, _, _, _) = absurd (h refl)
name_slash-not_climbs (c ∷ []) r h = ground arith
name_slash-not_climbs (c ∷ d ∷ []) r (_, _, h, _) = ground (arith, not_two c d h)
name_slash-not_climbs (c ∷ d ∷ e ∷ p) r h = ground arith

pub names-not_climbs :
    (ps : List Text) (trailing : Bool) → All IsName ps → climbs (relative ps trailing) ≡ false
unfolding relative
names-not_climbs [] true h = unfold ◌===◌ in refl
names-not_climbs [] false h = unfold ◌===◌ in refl
names-not_climbs (p ∷ []) true (n, _) = unfold join in name_slash-not_climbs p [] n
names-not_climbs (p ∷ []) false (n, _) = unfold join in name-not_climbs p n
names-not_climbs (p ∷ q ∷ ps) true (n, _) =
    unfold join in rw append_assoc (name_slash-not_climbs p (join slash (q ∷ ps) ++ slash) n)
names-not_climbs (p ∷ q ∷ ps) false (n, _) =
    unfold join in name_slash-not_climbs p (join slash (q ∷ ps)) n

relative-proper :
    (ps : List Text) (trailing : Bool)
    → All IsName ps
    → (is_empty (relative ps trailing) ≡ false) × (is_absolute (relative ps trailing) ≡ false)
unfolding relative join
relative-proper [] true h = (refl, refl)
relative-proper [] false h = (refl, refl)
relative-proper ([] ∷ ps) trailing ((h, _, _, _), _) = absurd (h refl)
relative-proper ((c ∷ p) ∷ []) true ((_, _, _, (n, _)), _) = ground arith
relative-proper ((c ∷ p) ∷ []) false ((_, _, _, (n, _)), _) = ground arith
relative-proper ((c ∷ p) ∷ q ∷ ps) true ((_, _, _, (n, _)), _) = ground arith
relative-proper ((c ∷ p) ∷ q ∷ ps) false ((_, _, _, (n, _)), _) = ground arith

resolve_join-relative :
    (p acc : Text) (ps : List Text)
    → is_empty p ≡ false
    → is_absolute p ≡ false
    → resolve_join (p ∷ ps) acc ≡ resolve_join ps (p ++ (slash ++ acc))
unfolding resolve_join
resolve_join-relative p acc ps e f = rw (e, f)

resolve_join-absolute :
    (s acc : Text) (ps : List Text)
    → resolve_join ((b'/' ∷ s) ∷ ps) acc ≡ (b'/' ∷ s) ++ (slash ++ acc)
unfolding resolve_join
resolve_join-absolute s acc ps = refl

walk_abs_path :
    (rs : List Text) → All IsName rs → walk false [] (split (abs_path rs)) ≡ reverse_aux rs []
unfolding abs_path
walk_abs_path rs h =
    ap (walk false []) (split-append_slash [] (join slash rs))
    ∙ walk-append false [] (split []) (split (join slash rs))
    ∙ ap (λ s. walk false s (split (join slash rs))) (walk_of_blank false [])
    ∙ walk-join false [] rs h

reverse_aux-reverse_aux :
    (xs ys zs : List Text) → reverse_aux (reverse_aux xs ys) zs ≡ reverse_aux ys (xs ++ zs)
reverse_aux-reverse_aux [] ys zs = refl
reverse_aux-reverse_aux (x ∷ xs) ys zs = reverse_aux-reverse_aux xs (x ∷ ys) zs

joined :
    (cwd : Text) (rs ps : List Text) (trailing : Bool)
    → All IsName ps
    → resolve_join (relative ps trailing ∷ abs_path rs ∷ cwd ∷ []) []
      ≡ abs_path rs ++ b'/' ∷ (relative ps trailing ++ slash)
joined cwd rs ps trailing hp =
    let (given, inside) = relative-proper ps trailing hp in
    resolve_join-relative (relative ps trailing) [] (abs_path rs ∷ cwd ∷ []) given inside
    ∙ unfold abs_path in
      resolve_join-absolute (join slash rs) (relative ps trailing ++ slash) (cwd ∷ [])

-- A normalised relative path without climbs, resolved under a directory, is the path of the
-- directory's parts and its own.
pub resolve-relative :
    (cwd : Text) (rs ps : List Text) (trailing : Bool)
    → All IsName rs
    → All IsName ps
    → resolve cwd (abs_path rs ∷ relative ps trailing ∷ []) ≡ abs_path (rs ++ ps)
unfolding resolve normal_parts
resolve-relative cwd rs ps trailing hr hp =
    ap (λ t. abs_path (reverse (walk false [] (split t)))) (joined cwd rs ps trailing hp)
    ∙ ap (λ t. abs_path (reverse (walk false [] t)))
        (split-append_slash (abs_path rs) (relative ps trailing ++ slash))
    ∙ ap (λ t. abs_path (reverse t))
        (walk-append false [] (split (abs_path rs)) (split (relative ps trailing ++ slash))
          ∙ ap (λ s. walk false s (split (relative ps trailing ++ slash))) (walk_abs_path rs hr)
          ∙ walk-slash false (reverse_aux rs []) (relative ps trailing)
          ∙ walk-relative false (reverse_aux rs []) ps trailing hp)
    ∙ ap abs_path (
        reverse_aux-reverse_aux ps (reverse_aux rs []) []
        ∙ reverse_aux-reverse_aux rs [] (ps ++ [])
        ∙ ap (λ t. rs ++ t) (append-nil ps))

-- Different names give different paths.
pub abs_path-injective :
    (ps qs : List Text) → All IsName ps → All IsName qs → abs_path ps ≡ abs_path qs → ps ≡ qs
abs_path-injective ps qs hp hq e =
    sym (reverse-reverse ps)
    ∙ ap reverse
        (sym (walk_abs_path ps hp) ∙ ap (λ t. walk false [] (split t)) e ∙ walk_abs_path qs hq)
    ∙ reverse-reverse qs
