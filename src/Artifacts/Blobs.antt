-- ===== src/Artifacts/Blobs.antt =====
-- src/artifacts/blob-store.ts: `FileSystemBlobStore`. The digest of Node's `createHash("sha256")` is
-- the parameter `sha256_hex`. The files under the store's root are two maps: objects by digest, each
-- with its time of change, and sidecars by digest. A sidecar is what `JSON.parse` makes of it; calls
-- of the file system do not fail. Digests are lists of code units, and the clock is `now`.
pub mod Integrity
pub mod Retention
mod Tests
use synth_agent_runtime.Prelude.{
  Bool, List, Map, Option, Result, String, [], drop, eqb, err, false, if◌then◌else◌, includes,
  insert, keep, keys, leb, length, list_eq, lookup, ltb, nat_eq, none, not, ok, option_eq, or_else,
  pair_eq, some, string_eq, take, true, ℕ, ◌&&◌, ◌++◌, ◌+◌, ◌==◌, ◌>>=◌, ◌>>◌, ◌||◌, ◌∷◌,
}
use synth_agent_runtime.Workspace.Snapshot.{Bytes, Text}

pub record BlobRef : Type 0 where
  pub digest : Text
  pub size : ℕ
  pub media_type : String
  pub produced_by : Option String
  pub produced_from : Option (List Text)
  pub tenant_id : Option String

pub record PutBlobOptions : Type 0 where
  pub media_type : Option String
  pub produced_by : Option String
  pub produced_from : Option (List Text)
  pub tenant_id : Option String

pub data BlobError : Type 0 where
  invalid_digest blob_corrupt no_such_file : Text → BlobError

-- "sha256:"
abbrev pub sha256_prefix : Text
sha256_prefix = 115 ∷ 104 ∷ 97 ∷ 50 ∷ 53 ∷ 54 ∷ 58 ∷ []

-- `[a-f0-9]`
abbrev pub is_hex : ℕ → Bool
is_hex c = (leb 97 c && leb c 102) || (leb 48 c && leb c 57)

unfoldable pub all_hex : Text → Bool
all_hex [] = true
all_hex (c ∷ cs) = let rest = all_hex cs in is_hex c && rest

-- `/^[a-f0-9]{64}$/.test(hex)`
abbrev pub is_digest : Text → Bool
is_digest hex = eqb (length hex) 64 && all_hex hex

abbrev pub strip_prefix : Text → Text
strip_prefix digest =
    if take (length sha256_prefix) digest == sha256_prefix
    then drop (length sha256_prefix) digest
    else digest

unfoldable pub normalize_digest : Text → Result BlobError Text
unfolding all_hex
normalize_digest digest =
    let hex = strip_prefix digest in
    if is_digest hex then ok (sha256_prefix ++ hex) else err (invalid_digest digest)

pub record File : Type 0 where
  pub content : Bytes
  pub mtime_ms : ℕ

pub record Sidecar : Type 0 where
  pub media_type : String
  pub produced_by : Option String
  pub produced_from : Option (List Text)
  pub tenant_id : Option String

pub record BlobStore : Type 0 where
  pub objects : Map Text File
  pub sidecars : Map Text Sidecar

-- `value ? { value } : {}` of a text, and the same of a list with a test for its length
unfoldable pub truthy : Option String → Option String
truthy none = none
truthy (some text) = if text == "" then none else some text

unfoldable pub non_empty : Option (List Text) → Option (List Text)
non_empty none = none
non_empty (some []) = none
non_empty (some (d ∷ ds)) = some (d ∷ ds)

abbrev pub default_media_type : String
default_media_type = "application/octet-stream"

abbrev pub sidecar_of : PutBlobOptions → Sidecar
sidecar_of options = record {
  media_type = or_else options.media_type default_media_type;
  produced_by = truthy options.produced_by;
  produced_from = non_empty options.produced_from;
  tenant_id = truthy options.tenant_id;
}

abbrev pub ref_of : Text → ℕ → Sidecar → BlobRef
ref_of digest size meta = record {
  digest = digest;
  size = size;
  media_type = meta.media_type;
  produced_by = meta.produced_by;
  produced_from = meta.produced_from;
  tenant_id = meta.tenant_id;
}

-- the sidecar that `stat` takes when there is none
abbrev pub no_sidecar : Sidecar
no_sidecar = record {
  media_type = default_media_type;
  produced_by = none;
  produced_from = none;
  tenant_id = none;
}

-- the sidecar as `stat` reads it: an empty text counts as none
abbrev pub read_sidecar : Option Sidecar → Sidecar
read_sidecar none = no_sidecar
read_sidecar (some meta) = record meta {
  produced_by = truthy meta.produced_by;
  tenant_id = truthy meta.tenant_id;
}

unfoldable pub stat_file : Text → Option Sidecar → Option File → Option BlobRef
unfolding truthy
stat_file digest meta none = none
stat_file digest meta (some file) = some (ref_of digest (length file.content) (read_sidecar meta))

-- `stat` of a digest in its normal form
unfoldable pub stat_normal : BlobStore → Text → Option BlobRef
unfolding stat_file
stat_normal s digest = stat_file digest (lookup digest s.sidecars) (lookup digest s.objects)

unfoldable pub stat : BlobStore → Text → Result BlobError (Option BlobRef)
unfolding normalize_digest stat_normal
stat s digest = do normalized ← normalize_digest digest; ok (stat_normal s normalized)

module _ (sha256_hex : Bytes → Text) where
  abbrev pub digest_of : Bytes → Text
  digest_of bytes = sha256_prefix ++ sha256_hex bytes

  -- there is an object under the digest, and its content has that digest
  unfoldable pub existed : Text → Option File → Bool
  existed digest none = false
  existed digest (some file) = digest_of file.content == digest

  unfoldable pub put : BlobStore → Bytes → PutBlobOptions → ℕ → BlobRef × BlobStore
  unfolding existed truthy non_empty
  put s bytes options now =
      let digest = digest_of bytes in
      let meta = sidecar_of options in
      let file : File = record { content = bytes; mtime_ms = now } in
      (
        ref_of digest (length bytes) meta,
        record {
          objects =
              if existed digest (lookup digest s.objects)
              then s.objects
              else insert digest file s.objects;
          sidecars = insert digest meta s.sidecars;
        },
      )

  unfoldable pub get_file : Text → Option File → Result BlobError Bytes
  get_file normalized none = err (no_such_file normalized)
  get_file normalized (some file) =
      if digest_of file.content == normalized
      then ok file.content
      else err (blob_corrupt normalized)

  unfoldable pub get : BlobStore → Text → Result BlobError Bytes
  unfolding normalize_digest get_file
  get s digest = do
    normalized ← normalize_digest digest
    get_file normalized (lookup normalized s.objects)

pub record PruneOptions : Type 0 where
  pub kept : List Text
  pub older_than_ms : Option ℕ

-- `now - info.mtimeMs < options.olderThanMs`; a file that changes after `now` is younger
unfoldable pub is_young : Option ℕ → ℕ → File → Bool
is_young none now file = false
is_young (some older_than_ms) now file = ltb now (file.mtime_ms + older_than_ms)

abbrev pub is_pruned : PruneOptions → ℕ → Text × File → Bool
is_pruned options now (digest, file) =
    not (includes digest options.kept) && not (is_young options.older_than_ms now file)

unfoldable pub sizes : List (Text × File) → ℕ
sizes [] = 0
sizes ((digest, file) ∷ files) = length file.content + sizes files

pub record Pruned : Type 0 where
  pub removed : List Text
  pub freed_bytes : ℕ

-- `prune`, with the digests to keep in their normal form
unfoldable pub prune : BlobStore → PruneOptions → ℕ → Pruned × BlobStore
unfolding is_young sizes
prune s options now =
    let gone = keep (is_pruned options now) s.objects in
    (
      record { removed = keys gone; freed_bytes = sizes gone },
      record {
        objects = keep (λ o. not (is_pruned options now o)) s.objects;
        sidecars = keep (λ (m : Text × Sidecar). not (includes m.0 (keys gone))) s.sidecars;
      },
    )
