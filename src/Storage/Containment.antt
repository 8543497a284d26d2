-- ===== src/Storage/Containment.antt =====
-- Which keys `resolveKey` accepts, and where it puts them.
use mathlib.Core.List.{reverse-append, append-nil, append_assoc}
use taksees.Prelude.{
  zero, ◌≡◌, ◌≢◌, refl, sym, ap, ◌∙◌, ◌↔◌, Bool, true, false, List, [], ◌∷◌, ◌++◌, reverse, Text,
  arith, codes, ◌===◌, ===_self, is_empty_iff, starts_with, includes_unit, All, All-reverse, join,
  Bool-cases, inl, inr,
}
use taksees.Errors.{ok}
use taksees.Storage.{resolve_key, check_normal, check_prefix, root_of, escapes}
use taksees.Storage.Path.{
  dot_dot, slash, split, normal_parts, relative, normalize, ends_with_slash, resolve, abs_path,
}
use taksees.Storage.Path.Walk.{IsName, stays_below, walk_below, walk_escapes, walk-names}
use taksees.Storage.Path.Split.{split-NoSlash}
use taksees.Storage.Path.Normal.{climbs-relative, names-not_climbs, resolve-relative}

-- A relative key without a NUL that never climbs above its start.
pub record IsKey (key : Text) : Type 0 where
  pub given : key ≢ []
  pub no_nul : includes_unit key 0 ≡ false
  pub no_slash : starts_with key slash ≡ false
  pub no_backslash : starts_with key (codes "\\") ≡ false
  pub stays : stays_below zero (split key) ≡ true

-- The parts of a key that stays below its start are names.
pub normal_parts-names :
    (above : Bool) (key : Text)
    → stays_below zero (split key) ≡ true
    → All IsName (normal_parts above key) × (normal_parts above key ≡ normal_parts false key)
unfolding normal_parts
normal_parts-names above key h =
    let (names, same) = walk_below above [] (split key) tt (split-NoSlash key) h in
    (All-reverse IsName _ names, ap reverse same)

normal_parts-climbs :
    (key : Text)
    → stays_below zero (split key) ≡ false
    → (rest : List Text) × (normal_parts true key ≡ dot_dot ∷ rest)
unfolding normal_parts
normal_parts-climbs key h =
    let (rest, e) = walk_escapes [] (split key) tt (split-NoSlash key) h in
    (reverse rest, ap reverse e ∙ reverse-append rest (dot_dot ∷ []))

normalize_of_relative :
    (key : Text)
    → key ≢ []
    → starts_with key slash ≡ false
    → normalize key ≡ relative (normal_parts true key) (ends_with_slash key)
unfolding normalize
normalize_of_relative [] h k = absurd (h refl)
normalize_of_relative (c ∷ s) h k = ground arith

join-append :
    (p : Text) (ps : List Text) (q : Text) (qs : List Text)
    → join slash ((p ∷ ps) ++ q ∷ qs) ≡ join slash (p ∷ ps) ++ b'/' ∷ join slash (q ∷ qs)
unfolding join
join-append p [] q qs = refl
join-append p (r ∷ ps) q qs =
    ap (λ t. p ++ b'/' ∷ t) (join-append r ps q qs)
    ∙ sym (append_assoc p (b'/' ∷ join slash (r ∷ ps)) (b'/' ∷ join slash (q ∷ qs)))

starts_with-append : (s t : Text) → starts_with (s ++ t) s ≡ true
starts_with-append [] t = refl
starts_with-append (c ∷ s) t = ground (arith, starts_with-append s t)

starts_with-abs_path :
    (r : Text) (rs : List Text) (p : Text) (ps : List Text)
    → starts_with (abs_path ((r ∷ rs) ++ p ∷ ps)) (abs_path (r ∷ rs) ++ slash) ≡ true
unfolding abs_path
starts_with-abs_path r rs p ps =
    ap (λ t. starts_with t (join slash (r ∷ rs) ++ slash))
      (join-append r rs p ps ∙ sym (append_assoc (join slash (r ∷ rs)) slash (join slash (p ∷ ps))))
    ∙ starts_with-append (join slash (r ∷ rs) ++ slash) (join slash (p ∷ ps))

-- Below a root that is not the file system's, the last test lets every resolved path through.
check_prefix-below :
    (r : Text) (rs ps : List Text) (key : Text)
    → let abs = abs_path ((r ∷ rs) ++ ps) in check_prefix (abs_path (r ∷ rs)) key abs ≡ ok abs
unfolding check_prefix
check_prefix-below r rs [] key = rw (append-nil, ===_self)
check_prefix-below r rs (p ∷ ps) key = rw (starts_with-abs_path r rs p ps) (ground arith)

module _ (cwd : Text) (rs : List Text) (names : All IsName rs) (key : Text) where
  -- The last two tests, for a relative key.
  check_key :
      key ≢ []
      → starts_with key slash ≡ false
      → stays_below zero (split key) ≡ true
      → check_normal cwd (abs_path rs) key (normalize key)
        ≡ check_prefix (abs_path rs) key (abs_path (rs ++ normal_parts false key))
  unfolding check_normal
  check_key given inside stays =
      let (safe, same) = normal_parts-names true key stays in
      let trailing = ends_with_slash key in
      rw
        (
          normalize_of_relative key given inside,
          names-not_climbs (normal_parts true key) trailing safe,
        )
        (ap (check_prefix (abs_path rs) key) (
          resolve-relative cwd rs (normal_parts true key) trailing names safe
          ∙ ap (λ t. abs_path (rs ++ t)) same))

  check_climbing :
      key ≢ []
      → starts_with key slash ≡ false
      → stays_below zero (split key) ≡ false
      → check_normal cwd (abs_path rs) key (normalize key) ≡ escapes key
  unfolding check_normal
  check_climbing given inside leaves =
      let (rest, e) = normal_parts-climbs key leaves in
      rw (normalize_of_relative key given inside, e, climbs-relative rest (ends_with_slash key))

-- The tests on the raw key.
record IsRelative (key : Text) : Type 0 where
  given : key ≢ []
  no_nul : includes_unit key 0 ≡ false
  no_slash : starts_with key slash ≡ false
  no_backslash : starts_with key (codes "\\") ≡ false

resolve_key-ok :
    (cwd root key abs : Text)
    → resolve_key cwd root key ≡ ok abs
    → IsRelative key × (check_normal cwd root key (normalize key) ≡ ok abs)
unfolding resolve_key
resolve_key-ok cwd root key abs h = ground (arith, is_empty_iff key)

resolve_key_of_IsRelative :
    (cwd root key : Text)
    → IsRelative key
    → resolve_key cwd root key ≡ check_normal cwd root key (normalize key)
unfolding resolve_key
resolve_key_of_IsRelative cwd root key h = ground (arith, is_empty_iff key)

IsKey-IsRelative : (key : Text) → IsKey key → IsRelative key
IsKey-IsRelative key k = record {
  given = k.given;
  no_nul = k.no_nul;
  no_slash = k.no_slash;
  no_backslash = k.no_backslash;
}

-- For an accepted key the last tests come down to the comparison with the root.
resolve_key-prefix :
    (cwd : Text) (rs : List Text) (key abs : Text)
    → All IsName rs
    → resolve_key cwd (abs_path rs) key ≡ ok abs
    → IsKey key
      × (check_prefix (abs_path rs) key (abs_path (rs ++ normal_parts false key)) ≡ ok abs)
resolve_key-prefix cwd rs key abs names h =
    let (raw, e) = resolve_key-ok cwd (abs_path rs) key abs h in
    elim (Bool-cases (stays_below zero (split key))) [
      | inl stays ↦ (
        record {
          given = raw.given;
          no_nul = raw.no_nul;
          no_slash = raw.no_slash;
          no_backslash = raw.no_backslash;
          stays = stays;
        },
        sym (check_key cwd rs names key raw.given raw.no_slash stays) ∙ e,
      )
      | inr leaves ↦ cc (check_climbing cwd rs names key raw.given raw.no_slash leaves, e)
    ]

IsKey-resolve_key :
    (cwd : Text) (rs : List Text) (key : Text)
    → All IsName rs
    → IsKey key
    → resolve_key cwd (abs_path rs) key
      ≡ check_prefix (abs_path rs) key (abs_path (rs ++ normal_parts false key))
IsKey-resolve_key cwd rs key names k =
    resolve_key_of_IsRelative cwd (abs_path rs) key (IsKey-IsRelative key k)
    ∙ check_key cwd rs names key k.given k.no_slash k.stays

-- Under a root with at least one part, `resolveKey` accepts exactly the relative keys without a
-- NUL that never climb above their start, and gives the path of the root's parts and the key's
-- normal parts; these are names, so the path lies under the root.
pub resolve_key_iff :
    (cwd r : Text) (rs : List Text) (key abs : Text)
    → All IsName (r ∷ rs)
    → ((resolve_key cwd (abs_path (r ∷ rs)) key ≡ ok abs) ↔ (
        IsKey key
        × (abs ≡ abs_path ((r ∷ rs) ++ normal_parts false key))
        × All IsName (normal_parts false key)))
resolve_key_iff cwd r rs key abs names = (
  λ h.
      let (k, e) = resolve_key-prefix cwd (r ∷ rs) key abs names h in
      (
        k,
        cc (e, check_prefix-below r rs (normal_parts false key) key),
        (normal_parts-names false key k.stays).0,
      ),
  λ (k, same, _).
      IsKey-resolve_key cwd (r ∷ rs) key names k
      ∙ check_prefix-below r rs (normal_parts false key) key
      ∙ ap ok (sym same),
)

-- The constructor's root, in an absolute working directory, is the path of names.
pub root_of-names :
    (s root_dir : Text)
    → (rs : List Text) × (root_of (b'/' ∷ s) root_dir ≡ abs_path rs) × All IsName rs
unfolding root_of resolve normal_parts
root_of-names s root_dir = (_, refl, All-reverse IsName _ (walk-names [] _ tt (split-NoSlash _)))

check_prefix-top :
    (ps : List Text) (key abs : Text)
    → All IsName ps
    → check_prefix (abs_path []) key (abs_path ps) ≡ ok abs
    → (ps ≡ []) × (abs ≡ slash)
unfolding check_prefix abs_path join ◌===◌
check_prefix-top [] key abs h e = (refl, ground arith)
check_prefix-top ([] ∷ ps) key abs ((h, _, _, _), _) e = absurd (h refl)
check_prefix-top ((c ∷ p) ∷ []) key abs ((_, _, _, (n, _)), _) e = ground arith
check_prefix-top ((c ∷ p) ∷ q ∷ ps) key abs ((_, _, _, (n, _)), _) e = ground arith

-- With `/` for the storage root `resolveKey` accepts no key that names a file: an accepted key has
-- no parts, and resolves to the root itself.
pub resolve_key_at_top :
    (cwd key abs : Text)
    → resolve_key cwd (abs_path []) key ≡ ok abs
    → (normal_parts false key ≡ []) × (abs ≡ slash)
resolve_key_at_top cwd key abs h =
    let (k, e) = resolve_key-prefix cwd [] key abs tt h in
    check_prefix-top (normal_parts false key) key abs (normal_parts-names false key k.stays).0 e
