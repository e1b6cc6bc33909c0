-- ===== src/InstallJobs/Disk.antt =====
-- The private store file: `_store_presence` and `_read_durable_jobs` of
-- custom_components/panel_assistant/install_jobs.py. `none` is `InstallJobStoreError`.
use ha_paneld_home_assistant.Prelude.{
  Bool, true, false, ◌&&◌, not, Option, none, some, List, [], ◌∷◌, ◌++◌, leb, ◌==◌, if◌then◌else◌,
  length, ◌>>=◌, ◌>>◌, check, Text,
}
use ha_paneld_home_assistant.Platform.{Platform, Metadata, StoreFile}
use ha_paneld_home_assistant.InstallJobs.Scalars.{max_store_bytes}
use ha_paneld_home_assistant.InstallJobs.Document.{Jobs, parse_store_document}

-- The file at the store's path, and whether its folder holds a `.corrupt.` sibling of it.
pub record Disk : Type 0 where
  pub file : Option StoreFile
  pub corrupt : Bool

-- `_metadata_identity(a) == _metadata_identity(b)`
unfoldable pub same_identity : Metadata → Metadata → Bool
same_identity a b =
    (a.dev == b.dev)
    && ((a.ino == b.ino)
        && ((if a.regular then b.regular else not b.regular)
            && ((a.mode == b.mode)
                && ((a.uid == b.uid)
                    && ((a.nlink == b.nlink)
                        && ((a.size == b.size)
                            && ((a.mtime_ns == b.mtime_ns) && (a.ctime_ns == b.ctime_ns))))))))

-- What the system calls of one `_read_durable_jobs` return: whether `os.open` succeeds, the four
-- looks at the file, and what each `os.read` brings.
pub record ReadCalls : Type 0 where
  pub opened : Bool
  pub before : Metadata
  pub chunks : List Text
  pub after : Metadata
  pub path_after : Metadata
  pub final : Metadata
  pub final_path : Metadata

-- The read loop: an empty chunk is the end of the file.
unfoldable pub read_body : List Text → Text → Option Text
read_body [] body = some body
read_body ([] ∷ chunks) body = some body
read_body ((c ∷ cs) ∷ chunks) body = do
  let longer = body ++ (c ∷ cs)
  check (leb (length longer) max_store_bytes)
  read_body chunks longer

module _ (p : Platform) where
  -- A private regular file of this user with one name.
  unfoldable pub is_private : Metadata → Bool
  is_private m = m.regular && ((m.mode == 0o600) && ((m.uid == p.euid) && (m.nlink == 1)))

  -- Whether the file exists, and whether a corrupt sibling does.
  unfoldable pub store_presence : Disk → Option (Bool × Bool)
  unfolding is_private
  store_presence d = elim d.file [
    | none ↦ some (false, d.corrupt)
    | some f ↦
        if is_private f.metadata && leb f.metadata.size max_store_bytes
        then some (true, d.corrupt)
        else none
  ]

  -- The bytes of a private file that nobody changed meanwhile.
  unfoldable pub read_unchanged : ReadCalls → Option Text
  unfolding is_private read_body same_identity
  read_unchanged calls = do
    check calls.opened
    check (
        is_private calls.before
        && (leb 1 calls.before.size && leb calls.before.size max_store_bytes))
    body ← read_body calls.chunks []
    check (same_identity calls.before calls.after && same_identity calls.after calls.path_after)
    check (length body == calls.before.size)
    some body

  unfoldable pub read_durable_jobs : ReadCalls → Option Jobs
  unfolding read_unchanged same_identity parse_store_document
  read_durable_jobs calls = do
    body ← read_unchanged calls
    jobs ← parse_store_document p body
    check (same_identity calls.after calls.final && same_identity calls.final calls.final_path)
    some jobs

  -- The calls when nothing else writes the file.
  unfoldable pub quiet_calls : StoreFile → ReadCalls
  quiet_calls f = record {
    opened = true;
    before = f.metadata;
    chunks = f.body ∷ [] ∷ [];
    after = f.metadata;
    path_after = f.metadata;
    final = f.metadata;
    final_path = f.metadata;
  }

  unfoldable pub read_disk : Disk → Option Jobs
  unfolding read_durable_jobs quiet_calls
  read_disk d = elim d.file [ none ↦ none | some f ↦ read_durable_jobs (quiet_calls f) ]
