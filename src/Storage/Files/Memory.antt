-- ===== src/Storage/Files/Memory.antt =====
-- A file system in memory, which shows that the assumptions of the storage laws can be met.
use taksees.Prelude.{Option, none, some, Text, codes, ◌===◌, ===_self, if◌then◌else◌}
use taksees.Errors.{Result, ok, throws, error}
use taksees.Storage.Files.{Buffer, FileSystem, IsLawful}

abbrev pub Disk : Type 0
Disk = Text → Option Buffer

abbrev pub empty : Disk
empty _ = none

abbrev update : Text → Option Buffer → Disk → Disk
update p content disk q = if p === q then content else disk q

abbrev or_missing : Option Buffer → Result Buffer
or_missing none = throws (error (codes "ENOENT"))
or_missing (some b) = ok b

abbrev accessed : Option Buffer → Result (Unit {0})
accessed none = throws (error (codes "ENOENT"))
accessed (some b) = ok tt

abbrev pub memory : FileSystem
memory = record {
  State = Disk;
  mkdir = λ p disk. (ok tt, disk);
  write_file = λ p b disk. (ok tt, update p (some b) disk);
  read_file = λ p disk. or_missing (disk p);
  unlink = λ p disk. (accessed (disk p), update p none disk);
  access = λ p disk. accessed (disk p);
}

pub memory-IsLawful : IsLawful memory
memory-IsLawful = record {
  read-write = λ p b s h. rw (===_self p);
  access-write = λ p b s h. rw (===_self p);
  access-unlink = λ p s h e. cc (rw (===_self p) at e);
}
