-- ===== src/Artifacts/Blobs/Integrity.antt =====
-- What is read under a digest has that digest.
use synth_agent_runtime.Workspace.Snapshot.{Bytes, Text}
use synth_agent_runtime.Prelude.{
  Bool-cases, Option, Result-cases, ap, arith, beq_eq, beq_refl, drop, drop-length_append, err,
  if_elim, if◌then◌else◌, inl, inr, insert, list_beq_iff, list_eq, lookup, lookup-insert, nat_eq,
  none, ok, option_eq, pair_eq, refl, some, string_eq, subst, sym, take-length_append, true, ℕ,
  ◌++◌, ◌==◌, ◌>>=◌, ◌∙◌, ◌≡◌, ◌≢◌,
}
use synth_agent_runtime.Artifacts.Blobs.{
  BlobError, BlobStore, File, PutBlobOptions, digest_of, existed, get, get_file, is_digest,
  normalize_digest, put, sha256_prefix, strip_prefix,
}

-- What the store relies on: the hash is written in 64 hexadecimal digits.
abbrev pub IsHash : (Bytes → Text) → Type 0
IsHash sha256_hex = (bytes : Bytes) → is_digest (sha256_hex bytes) ≡ true

strip_digest : (hex : Text) → strip_prefix (sha256_prefix ++ hex) ≡ hex
strip_digest hex =
    rw
      (
        take-length_append sha256_prefix hex,
        beq_refl sha256_prefix,
        drop-length_append sha256_prefix hex,
      )
      refl

module _ (sha256_hex : Bytes → Text) where
  pub normalize_digest_of :
      (bytes : Bytes)
      → IsHash sha256_hex
      → normalize_digest (digest_of sha256_hex bytes) ≡ ok (digest_of sha256_hex bytes)
  unfolding normalize_digest
  normalize_digest_of bytes v = rw (strip_digest (sha256_hex bytes), v bytes, normalize_digest) refl

  get_file_lem :
      (n : Text) (o : Option File) (bytes : Bytes)
      → get_file sha256_hex n o ≡ ok bytes
      → digest_of sha256_hex bytes ≡ n
  unfolding get_file
  get_file_lem n none bytes h = absurd (cc)
  get_file_lem n (some file) bytes h =
      ground (arith, list_beq_iff (digest_of sha256_hex file.content) n)

  -- Integrity: the bytes that a read of a digest returns have that digest, in its normal form,
  -- whatever happened to the files.
  pub get_integrity :
      (s : BlobStore) (digest : Text) (bytes : Bytes)
      → get sha256_hex s digest ≡ ok bytes
      → normalize_digest digest ≡ ok (digest_of sha256_hex bytes)
  unfolding get
  get_integrity s digest bytes h = elim (Result-cases (normalize_digest digest)) [
    | inl (n, e) ↦
        let h' : get_file sha256_hex n (lookup n s.objects) ≡ ok bytes =
          subst (λ r. (r >>= λ m. get_file sha256_hex m (lookup m s.objects)) ≡ ok bytes) e h in
        e ∙ ap ok (sym (get_file_lem n (lookup n s.objects) bytes h'))
    | inr (x, e) ↦ absurd (
        clash (subst (λ r. (r >>= λ m. get_file sha256_hex m (lookup m s.objects)) ≡ ok bytes) e h))
  ]
    where
      clash : {x : BlobError} → err x ≢ ok bytes
      clash e = absurd (cc)

  get_normal :
      (s : BlobStore) (digest n : Text)
      → normalize_digest digest ≡ ok n
      → get sha256_hex s digest ≡ get_file sha256_hex n (lookup n s.objects)
  unfolding get
  get_normal s digest n e = rw (e, get) refl

  -- The object holds these bytes, or bytes with another hash.
  abbrev pub IsFresh : File → Bytes → Type 0
  IsFresh file bytes = sha256_hex file.content ≡ sha256_hex bytes → file.content ≡ bytes

  existed_same :
      (o : Option File) (bytes : Bytes)
      → ((file : File) → o ≡ some file → IsFresh file bytes)
      → existed sha256_hex (digest_of sha256_hex bytes) o ≡ true
      → get_file sha256_hex (digest_of sha256_hex bytes) o ≡ ok bytes
  unfolding existed get_file
  existed_same none bytes v h = absurd (cc)
  existed_same (some file) bytes v h =
      let e = beq_eq (digest_of sha256_hex file.content) (digest_of sha256_hex bytes) h in
      rw h (ap ok (v file refl (ap (drop 7) e)))

  written :
      (d n : Text) (bytes : Bytes) (now : ℕ) (s : BlobStore)
      → d ≡ digest_of sha256_hex bytes
      → get_file sha256_hex n
          (if d == n then some (record { content = bytes; mtime_ms = now }) else lookup n s.objects)
        ≡ (if d == n then ok bytes else get_file sha256_hex n (lookup n s.objects))
  unfolding get_file
  written d n bytes now s e = elim (Bool-cases (d == n)) [
    | inl y ↦ rw y (rw (subst (λ k. (k == n) ≡ true) e y) refl)
    | inr f ↦ rw f refl
  ]

  put_file :
      (s : BlobStore) (bytes : Bytes) (options : PutBlobOptions) (now : ℕ) (n : Text)
      → ((file : File)
          → lookup (digest_of sha256_hex bytes) s.objects ≡ some file
          → IsFresh file bytes)
      → get_file sha256_hex n (lookup n (put sha256_hex s bytes options now).1.objects) ≡ (
          if digest_of sha256_hex bytes == n
          then ok bytes
          else get_file sha256_hex n (lookup n s.objects))
  unfolding put
  put_file s bytes options now n v =
      let d = digest_of sha256_hex bytes in
      let file : File = record { content = bytes; mtime_ms = now } in
      if_elim
        (λ objects.
          get_file sha256_hex n (lookup n objects)
          ≡ (if d == n then ok bytes else get_file sha256_hex n (lookup n s.objects)))
        (existed sha256_hex d (lookup d s.objects)) s.objects (insert d file s.objects)
        (λ t. elim (Bool-cases (d == n)) [
          | inl y ↦ rw y (
              subst (λ k. get_file sha256_hex k (lookup k s.objects) ≡ ok bytes) (beq_eq d n y)
                (existed_same (lookup d s.objects) bytes v t))
          | inr f ↦ rw f refl
        ])
        (λ _. rw (lookup-insert d n file s.objects) (written d n bytes now s refl))

  -- A read of any valid digest after a write gives the bytes that were written, if it is theirs, even
  -- if the object was damaged before, and otherwise just what it gave before. The object that was
  -- there does not collide with the bytes: if the hashes are equal, so are the contents.
  pub get-put :
      (s : BlobStore) (bytes : Bytes) (options : PutBlobOptions) (now : ℕ) (digest n : Text)
      → ((file : File)
          → lookup (digest_of sha256_hex bytes) s.objects ≡ some file
          → IsFresh file bytes)
      → normalize_digest digest ≡ ok n
      → get sha256_hex (put sha256_hex s bytes options now).1 digest
        ≡ (if digest_of sha256_hex bytes == n then ok bytes else get sha256_hex s digest)
  get-put s bytes options now digest n v e =
      rw (get_normal (put sha256_hex s bytes options now).1 digest n e, get_normal s digest n e)
        (put_file s bytes options now n v)
