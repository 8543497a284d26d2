-- ===== src/Storage/Files/Laws.antt =====
-- What the four operations of the storage service do to the files.
use taksees.Prelude.{◌≡◌, ◌≢◌, true, false, ◌++◌, Text, arith, codes, inl, inr}
use taksees.Errors.{Result, Result-cases, ok, throws, Exception}
use taksees.Storage.{resolve_key}
use taksees.Storage.Encode.{encode_uri_component}
use taksees.Storage.Files.{
  Buffer, FileSystem, IsLawful, dirname, PutResult, put_result, put, get, delete, unlink_quietly,
  found, exists,
}

module _ (F : FileSystem) (cwd root : Text) where
  -- A refused key is refused by every operation, and nothing is touched.
  pub refused_key :
      (key : Text) (e : Exception) (buffer : Buffer) (s : F.State)
      → resolve_key cwd root key ≡ throws e
      → (put F cwd root key buffer s ≡ (throws e, s))
        × (get F cwd root key s ≡ (throws e, s))
        × (delete F cwd root key s ≡ (throws e, s))
        × (exists F cwd root key s ≡ (throws e, s))
  unfolding put get delete exists
  refused_key key e buffer s h = (rw h, rw h, rw h, rw h)

  -- The steps of a `put` that succeeds.
  pub record Stored (key : Text) (buffer : Buffer) (s t : F.State) (r : PutResult) : Type 0 where
    pub resolved : resolve_key cwd root key ≡ ok r.abs_path
    pub written : (F.write_file r.abs_path buffer (F.mkdir (dirname r.abs_path) s).1).0 ≡ ok tt
    pub left : t ≡ (F.write_file r.abs_path buffer (F.mkdir (dirname r.abs_path) s).1).1
    pub named : put_result key r.abs_path (encode_uri_component key) ≡ ok r

  put_result-path :
      (key path : Text) (encoded : Result Text) (r : PutResult)
      → put_result key path encoded ≡ ok r
      → r.abs_path ≡ path
  unfolding put_result
  put_result-path key path encoded r h = ground arith

  pub put-Stored :
      (key : Text) (buffer : Buffer) (s t : F.State) (r : PutResult)
      → put F cwd root key buffer s ≡ (ok r, t)
      → Stored key buffer s t r
  unfolding put
  put-Stored key buffer s t r h = elim (Result-cases (resolve_key cwd root key)) [
    | inl (path, e) ↦ ground (arith, put_result-path key path (encode_uri_component key) r)
    | inr (x, e) ↦ cc (rw (e, put) at h)
  ]

  pub put-url :
      (key path : Text) (r : PutResult)
      → put_result key path (encode_uri_component key) ≡ ok r
      → (encoded : Text) × (encode_uri_component key ≡ ok encoded)
        × (r.url ≡ codes "/api/files/" ++ encoded)
        × (r.key ≡ key)
  unfolding put_result
  put-url key path r h = ground arith

  module _ (lawful : IsLawful F) (key : Text) (buffer : Buffer) (s t : F.State) (r : PutResult)
      (h : put F cwd root key buffer s ≡ (ok r, t)) where
    pub get-put_at :
        (other : Text)
        → resolve_key cwd root other ≡ ok r.abs_path
        → (get F cwd root other t ≡ (ok buffer, t)) × (exists F cwd root other t ≡ (ok true, t))
    unfolding get exists found
    get-put_at other e =
        let stored = put-Stored key buffer s t r h in
        let u = (F.mkdir (dirname r.abs_path) s).1 in
        ground (
          arith,
          lawful.read-write r.abs_path buffer u,
          lawful.access-write r.abs_path buffer u,
          stored.written,
          stored.left,
        )

  pub unlink_quietly_lem :
      (path : Text) (s : F.State) → unlink_quietly F cwd root path s ≡ (ok tt, (F.unlink path s).1)
  unfolding unlink_quietly
  unlink_quietly_lem path s = ground arith

  pub found_of_ne : (o : Result (Unit {0})) → o ≢ ok tt → found F cwd root o ≡ false
  unfolding found
  found_of_ne o h = ground arith
