-- ===== src/Storage/Tests.antt =====
-- Runs of the storage service on the cases of local-storage.service.spec.ts, and the theorems at
-- concrete keys.
use taksees.Prelude.{
  ◌≡◌, ◌≢◌, refl, ◌↔◌, true, false, List, [], ◌∷◌, ◌++◌, Text, String, codes, arith, ◌===◌, join,
  All,
}
use taksees.Errors.{Result, ok, throws, error, Exception}
use taksees.Storage.{resolve_key, check_normal, check_prefix, root_of}
use taksees.Storage.Path.{
  split, normal_parts, walk, step, climb, normalize, relative, absolute, ends_with_slash, resolve,
  resolve_join, abs_path, slash,
}
use taksees.Storage.Path.Walk.{IsName, stays_below}
use taksees.Storage.Encode.{
  encode_uri_component, encode_from, encode_unit, encode_point, percent, hex_digit, is_unreserved,
  IsEncoded,
}
use taksees.Storage.Containment.{IsKey, resolve_key_iff, resolve_key_at_top, root_of-names}
use taksees.Storage.Files.{Buffer, PutResult, put_result, put, get, delete, exists}
use taksees.Storage.Files.Laws.{refused_key}
use taksees.Storage.Files.RoundTrip.{get-put, put-IsEncoded, exists-delete}
use taksees.Storage.Files.Memory.{memory, memory-IsLawful, empty, Disk}

abbrev cwd : Text
cwd = codes "/app"

abbrev parts : List Text
parts = codes "srv" ∷ codes "files" ∷ []

abbrev root : Text
root = codes "/srv/files"

parts-names : All IsName parts
parts-names = ground arith

run : String → Result Text
unfolding resolve_key check_normal check_prefix normalize relative absolute ends_with_slash resolve
    resolve_join abs_path normal_parts walk step climb split join ◌===◌
run key = resolve_key cwd root (codes key)

root_test : abs_path parts ≡ root
unfolding abs_path join
root_test = refl

accepted :
    (run "greet.txt" ≡ ok (codes "/srv/files/greet.txt"))
    × (run "a/b/c/file.bin" ≡ ok (codes "/srv/files/a/b/c/file.bin"))
    × (run "a/./x//../b/" ≡ ok (codes "/srv/files/a/b"))
    × (run "..x/y" ≡ ok (codes "/srv/files/..x/y"))
unfolding run
accepted = (refl, refl, refl, refl)

escaping :
    (run "../escape.txt" ≡ throws (error (codes "Storage key escapes root: ../escape.txt")))
    × (run "a/../../escape.txt"
        ≡ throws (error (codes "Storage key escapes root: a/../../escape.txt")))
    × (run "/etc/passwd" ≡ throws (error (codes "Storage key must be relative: /etc/passwd")))
    × (run "a//../../escape.txt"
        ≡ throws (error (codes "Storage key escapes root: a//../../escape.txt")))
unfolding run
escaping = (refl, refl, refl, refl)

encoded : encode_uri_component (codes "a b/c") ≡ ok (codes "a%20b%2Fc")
unfolding encode_uri_component encode_from encode_unit encode_point percent hex_digit is_unreserved
encoded = refl

relative_root : root_of cwd (codes "./storage") ≡ codes "/app/storage"
unfolding root_of run
relative_root = refl

plain-IsKey : IsKey (codes "a/b")
unfolding stays_below split ◌===◌
plain-IsKey = record {
  given = ground arith;
  no_nul = refl;
  no_slash = refl;
  no_backslash = refl;
  stays = refl;
}

spelled-IsKey : IsKey (codes "x/../a//b")
unfolding stays_below split ◌===◌
spelled-IsKey = record {
  given = ground arith;
  no_nul = refl;
  no_slash = refl;
  no_backslash = refl;
  stays = refl;
}

other-IsKey : IsKey (codes "c")
unfolding stays_below split ◌===◌
other-IsKey = record {
  given = ground arith;
  no_nul = refl;
  no_slash = refl;
  no_backslash = refl;
  stays = refl;
}

same_parts : normal_parts false (codes "x/../a//b") ≡ normal_parts false (codes "a/b")
unfolding normal_parts walk step climb split ◌===◌
same_parts = refl

other_parts : normal_parts false (codes "c") ≢ normal_parts false (codes "a/b")
unfolding normal_parts walk step climb split ◌===◌
other_parts e = cc

resolve_key_iff_example :
    (resolve_key cwd (abs_path parts) (codes "a/b") ≡ ok (codes "/srv/files/a/b")) ↔ (
      IsKey (codes "a/b")
      × (codes "/srv/files/a/b" ≡ abs_path (parts ++ normal_parts false (codes "a/b")))
      × All IsName (normal_parts false (codes "a/b")))
resolve_key_iff_example =
    resolve_key_iff cwd (codes "srv") (codes "files" ∷ []) (codes "a/b") (codes "/srv/files/a/b")
      parts-names

top_test : resolve_key cwd (abs_path []) (codes "a/..") ≡ ok slash
unfolding run
top_test = refl

top_directory_test : (normal_parts false (codes "a/..") ≡ []) × (slash ≡ slash)
top_directory_test = resolve_key_at_top cwd (codes "a/..") slash top_test

root_of-names_test :
    (rs : List Text) × (root_of cwd (codes "./storage") ≡ abs_path rs) × All IsName rs
root_of-names_test = root_of-names (codes "app") (codes "./storage")

abbrev buffer : Buffer
buffer = 1 ∷ 2 ∷ []

abbrev stored : PutResult
stored = record {
  key = codes "a/b";
  abs_path = codes "/srv/files/a/b";
  url = codes "/api/files/a%2Fb";
}

disk : Disk
disk = (put memory cwd (abs_path parts) (codes "a/b") buffer empty).1

put_test : put memory cwd (abs_path parts) (codes "a/b") buffer empty ≡ (ok stored, disk)
unfolding disk put put_result encode_uri_component encode_from encode_unit encode_point percent
    hex_digit is_unreserved run
put_test = refl

get-put_example :
    (get memory cwd (abs_path parts) (codes "x/../a//b") disk ≡ (ok buffer, disk))
    × (exists memory cwd (abs_path parts) (codes "x/../a//b") disk ≡ (ok true, disk))
get-put_example =
    get-put memory cwd (codes "srv") (codes "files" ∷ []) (codes "a/b") (codes "x/../a//b") buffer
      empty disk stored memory-IsLawful parts-names put_test spelled-IsKey same_parts

url_test :
    (encoded : Text) × (codes "/api/files/a%2Fb" ≡ codes "/api/files/" ++ encoded)
    × All IsEncoded encoded
url_test =
    put-IsEncoded memory cwd (abs_path parts) (codes "a/b") buffer empty disk stored (ground arith)
      put_test

removed_test : (memory.unlink (abs_path (parts ++ normal_parts false (codes "a/b"))) disk).0 ≡ ok tt
unfolding disk put put_result encode_uri_component encode_from encode_unit encode_point percent
    hex_digit is_unreserved run
removed_test = refl

gone_after_delete_test :
    (exists memory cwd
      (abs_path parts)
      (codes "x/../a//b")
      (delete memory cwd (abs_path parts) (codes "a/b") disk).1).0
    ≡ ok false
gone_after_delete_test =
    exists-delete memory cwd (codes "srv") (codes "files" ∷ []) (codes "a/b") (codes "x/../a//b")
      disk memory-IsLawful parts-names plain-IsKey spelled-IsKey same_parts removed_test

refused_test :
    resolve_key cwd root (codes "../x") ≡ throws (error (codes "Storage key escapes root: ../x"))
unfolding run
refused_test = refl

escaping_key_test :
    let e : Exception = error (codes "Storage key escapes root: ../x") in
    (put memory cwd root (codes "../x") buffer empty ≡ (throws e, empty))
    × (get memory cwd root (codes "../x") empty ≡ (throws e, empty))
    × (delete memory cwd root (codes "../x") empty ≡ (throws e, empty))
    × (exists memory cwd root (codes "../x") empty ≡ (throws e, empty))
escaping_key_test = refused_key memory cwd root (codes "../x") _ buffer empty refused_test
