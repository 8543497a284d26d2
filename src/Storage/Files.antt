-- ===== src/Storage/Files.antt =====
-- `put`, `get`, `delete` and `exists` of local-storage.service.ts over Node's `fs.promises`.
pub mod Laws
pub mod RoundTrip
pub mod Memory
use taksees.Prelude.{
  ℕ, ◌≡◌, ◌≢◌, Bool, true, false, not, List, [], ◌∷◌, ◌++◌, reverse, Text, codes, ◌==◌,
  if◌then◌else◌, is_empty, drop, drop_while,
}
use taksees.Errors.{Result, ok, throws}
use taksees.Effects.{Action, then_do, ◌>>=◌, ◌>>◌, or_catch, pure, lift, reads}
use taksees.Storage.{resolve_key}
use taksees.Storage.Path.{slash}
use taksees.Storage.Encode.{encode_uri_component}

abbrev pub Buffer : Type 0
Buffer = List ℕ

-- The calls of `fs.promises` over the state of the disk; a rejected promise is a `throws`.
pub record FileSystem : Type 1 where
  pub State : Type 0
  -- `mkdir(path, { recursive: true })`
  pub mkdir : Text → Action State (Unit {0})
  pub write_file : Text → Buffer → Action State (Unit {0})
  pub read_file : Text → State → Result Buffer
  pub unlink : Text → Action State (Unit {0})
  pub access : Text → State → Result (Unit {0})

-- What the service relies on. A directory that is made, and a call that is rejected, leave the
-- files as they are; a write or a removal changes the one file.
pub record IsLawful (F : FileSystem) : Type 0 where
  pub read-write :
      (p : Text) (b : Buffer) (s : F.State)
      → (F.write_file p b s).0 ≡ ok tt
      → F.read_file p (F.write_file p b s).1 ≡ ok b
  pub access-write :
      (p : Text) (b : Buffer) (s : F.State)
      → (F.write_file p b s).0 ≡ ok tt
      → F.access p (F.write_file p b s).1 ≡ ok tt
  pub access-unlink :
      (p : Text) (s : F.State) → (F.unlink p s).0 ≡ ok tt → F.access p (F.unlink p s).1 ≢ ok tt

-- `path.dirname` on an absolute path without a slash at its end
unfoldable pub dirname : Text → Text
dirname path =
    let dir = reverse (drop 1 (drop_while (λ c. not (c == b'/')) (reverse path))) in
    if is_empty dir then slash else dir

pub record PutResult : Type 0 where
  pub key : Text
  pub abs_path : Text
  pub url : Text

-- `` `/api/files/${encodeURIComponent(key)}` `` in the value that `put` returns
unfoldable pub put_result : Text → Text → Result Text → Result PutResult
put_result key path (throws e) = throws e
put_result key path (ok encoded) =
    ok (record { key = key; abs_path = path; url = codes "/api/files/" ++ encoded })

module _ (F : FileSystem) (cwd root : Text) where
  -- `put(key, buffer, mime)`
  unfoldable pub put : Text → Buffer → Action F.State PutResult
  put key buffer = do
    path ← lift (resolve_key cwd root key)
    F.mkdir (dirname path)
    F.write_file path buffer
    lift (put_result key path (encode_uri_component key))

  -- `get(key)`
  unfoldable pub get : Text → Action F.State Buffer
  get key = do path ← lift (resolve_key cwd root key); reads (F.read_file path)

  -- `fs.unlink(absPath).catch(() => undefined)`
  unfoldable pub unlink_quietly : Text → Action F.State (Unit {0})
  unlink_quietly path s = or_catch (F.unlink path s) (λ _. pure tt)

  -- `delete(key)`
  unfoldable pub delete : Text → Action F.State (Unit {0})
  delete key = do path ← lift (resolve_key cwd root key); unlink_quietly path

  -- The `try` of `exists`: an access that is rejected means no.
  unfoldable pub found : Result (Unit {0}) → Bool
  found (ok _) = true
  found (throws _) = false

  -- `exists(key)`
  unfoldable pub exists : Text → Action F.State Bool
  exists key = do path ← lift (resolve_key cwd root key); reads (λ s. ok (found (F.access path s)))
