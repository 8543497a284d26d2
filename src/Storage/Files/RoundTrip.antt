-- ===== src/Storage/Files/RoundTrip.antt =====
-- Storing and reading files by keys, under a root that is a directory below `/`.
use taksees.Prelude.{◌≡◌, refl, sym, ap, ◌∙◌, true, false, List, ◌∷◌, ◌++◌, Text, codes, All}
use taksees.Errors.{ok}
use taksees.Storage.{resolve_key}
use taksees.Storage.Path.{abs_path, normal_parts}
use taksees.Storage.Path.Walk.{IsName}
use taksees.Storage.Containment.{IsKey, resolve_key_iff, normal_parts-names}
use taksees.Storage.Encode.{IsEncoded, IsUnits, encode_uri_component-IsEncoded}
use taksees.Storage.Files.Laws.{put-Stored, put-url, get-put_at, unlink_quietly_lem, found_of_ne}
use taksees.Storage.Files.{Buffer, FileSystem, IsLawful, PutResult, put, get, delete, exists}

-- The root is a directory below `/`, and the file system keeps its word.
module _ (cwd top : Text) (rs : List Text) (names : All IsName (top ∷ rs)) where
  resolves :
      (key : Text)
      → IsKey key
      → resolve_key cwd (abs_path (top ∷ rs)) key
        ≡ ok (abs_path ((top ∷ rs) ++ normal_parts false key))
  resolves key k =
      (resolve_key_iff cwd top rs key _ names).1 (k, refl, (normal_parts-names false key k.stays).0)

  resolved_path :
      (key abs : Text)
      → resolve_key cwd (abs_path (top ∷ rs)) key ≡ ok abs
      → abs ≡ abs_path ((top ∷ rs) ++ normal_parts false key)
  resolved_path key abs h = ((resolve_key_iff cwd top rs key abs names).0 h).1

-- On a file system that keeps its word, with a root below `/`: after a `put` that succeeds, every
-- key with the same normal parts, the stored key among them, reads back the buffer and exists;
-- reading changes nothing.
pub get-put :
    (F : FileSystem) (cwd top : Text) (rs : List Text) (key other : Text) (buffer : Buffer)
    (s t : F.State) (r : PutResult)
    → IsLawful F
    → All IsName (top ∷ rs)
    → put F cwd (abs_path (top ∷ rs)) key buffer s ≡ (ok r, t)
    → IsKey other
    → normal_parts false other ≡ normal_parts false key
    → (get F cwd (abs_path (top ∷ rs)) other t ≡ (ok buffer, t))
      × (exists F cwd (abs_path (top ∷ rs)) other t ≡ (ok true, t))
get-put F cwd top rs key other buffer s t r lawful names h k same =
    let resolved = (put-Stored F cwd (abs_path (top ∷ rs)) key buffer s t r h).resolved in
    get-put_at F cwd (abs_path (top ∷ rs)) lawful key buffer s t r h other (
      resolves cwd top rs names other k
      ∙ ap ok (
          ap (λ ps. abs_path ((top ∷ rs) ++ ps)) same
          ∙ sym (resolved_path cwd top rs names key r.abs_path resolved)))

-- A `put` that succeeds gives a URL whose part behind `/api/files/` holds unreserved characters and
-- percent signs only.
pub put-IsEncoded :
    (F : FileSystem) (cwd root key : Text) (buffer : Buffer) (s t : F.State) (r : PutResult)
    → IsUnits key
    → put F cwd root key buffer s ≡ (ok r, t)
    → (encoded : Text) × (r.url ≡ codes "/api/files/" ++ encoded) × All IsEncoded encoded
put-IsEncoded F cwd root key buffer s t r units h =
    let stored = put-Stored F cwd root key buffer s t r h in
    let (encoded, e, url, _) = put-url F cwd root key r.abs_path r stored.named in
    (encoded, url, encode_uri_component-IsEncoded key encoded units e)

-- On a file system that keeps its word, with a root below `/`: after a `delete` that removed its
-- file, every key with the same normal parts is reported missing.
pub exists-delete :
    (F : FileSystem) (cwd top : Text) (rs : List Text) (key other : Text) (s : F.State)
    → IsLawful F
    → All IsName (top ∷ rs)
    → IsKey key
    → IsKey other
    → normal_parts false other ≡ normal_parts false key
    → (F.unlink (abs_path ((top ∷ rs) ++ normal_parts false key)) s).0 ≡ ok tt
    → (exists F cwd (abs_path (top ∷ rs)) other (delete F cwd (abs_path (top ∷ rs)) key s).1).0
      ≡ ok false
unfolding delete exists
exists-delete F cwd top rs key other s lawful names k l same removed =
    let path = abs_path ((top ∷ rs) ++ normal_parts false key) in
    let here =
      resolves cwd top rs names other l ∙ ap (λ ps. ok (abs_path ((top ∷ rs) ++ ps))) same in
    rw
      (resolves cwd top rs names key k, here, unlink_quietly_lem F cwd (abs_path (top ∷ rs)) path s)
      (ap ok (found_of_ne F cwd (abs_path (top ∷ rs)) _ (lawful.access-unlink path s removed)))
