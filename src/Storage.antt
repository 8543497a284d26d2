-- ===== src/Storage.antt =====
-- infrastructure/storage/local-storage.service.ts: files under a root directory, by relative keys.
pub mod Path
pub mod Encode
pub mod Containment
pub mod Files
mod Tests
use taksees.Prelude.{
  Bool, true, false, not, ◌&&◌, ◌||◌, List, [], ◌∷◌, ◌++◌, Text, codes, ◌===◌, if◌then◌else◌,
  is_empty, starts_with, includes_unit,
}
use taksees.Errors.{Result, ok, throws, error, ◌>>=◌}
use taksees.Storage.Path.{normalize, resolve, dot_dot, slash}

abbrev escapes : Text → Result Text
escapes key = throws (error (codes "Storage key escapes root: " ++ key))

-- The last test of `resolveKey`, on the resolved path.
unfoldable pub check_prefix : Text → Text → Text → Result Text
check_prefix root key abs =
    if not (abs === root) && not (starts_with abs (root ++ slash)) then escapes key else ok abs

-- The normalised key must not climb.
unfoldable pub check_normal : Text → Text → Text → Text → Result Text
check_normal cwd root key normalised =
    if normalised === dot_dot || starts_with normalised (codes "../")
    then escapes key
    else check_prefix root key (resolve cwd (root ∷ normalised ∷ []))

-- `resolveKey(key)`, with `this.root`
unfoldable pub resolve_key : Text → Text → Text → Result Text
resolve_key cwd root key =
    if is_empty key || includes_unit key 0
    then throws (error (codes "Invalid storage key."))
    else if starts_with key slash || starts_with key (codes "\\")
    then throws (error (codes "Storage key must be relative: " ++ key))
    else check_normal cwd root key (normalize key)

-- The constructor: `path.resolve(rootDir)`
unfoldable pub root_of : Text → Text → Text
root_of cwd root_dir = resolve cwd (root_dir ∷ [])
