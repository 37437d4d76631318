-- ===== src/FolderSession/Source/Scan.antt =====
-- transfer_folder.rs: `scan_folder` ends, and finds the files of the tree.
use Prim.Native.String.{String, ◌++◌ as ◌<>◌}
use p2pfile_transfer.Common.{
  ℕ, zero, suc, ◌+◌, ◌≤◌, ◌≡◌, refl, List, [], ◌∷◌, ◌++◌, some, arith, length, length-append, All,
  All-append, subst,
}
use p2pfile_transfer.Common.Text.{utf8}
use p2pfile_transfer.Errors.{Result, ok, err, panic, ◌>>=◌, bind_inv}
use p2pfile_transfer.Protocol.{FileMetadata}
use p2pfile_transfer.Folder.{sanitize_relative_path}
use p2pfile_transfer.FolderSession.Source.{
  Entries, end, file, dir, special, metadata_of, list_dir, count_dirs, scan_queue, scan_folder,
}

-- The files at and below a directory.
unfoldable pub count_files : Entries → ℕ
count_files end = 0
count_files (file name size modified more) = suc (count_files more)
count_files (dir name entries more) = count_files entries + count_files more
count_files (special name more) = count_files more

-- The receiver will accept the path.
abbrev pub IsNamed : FileMetadata → Type 0
IsNamed f = (parts : List (List ℕ)) × (sanitize_relative_path (utf8 f.path) ≡ ok parts)

rounds : List (String × Entries) → ℕ
rounds [] = 0
rounds ((path, entries) ∷ queue) = suc (count_dirs entries + rounds queue)

files_in : List (String × Entries) → ℕ
files_in [] = 0
files_in ((path, entries) ∷ queue) = count_files entries + files_in queue

rounds-append : (p q : List (String × Entries)) → rounds (p ++ q) ≡ rounds p + rounds q
unfolding rounds
rounds-append [] q = omega arith
rounds-append ((path, entries) ∷ p) q = omega (arith, rounds-append p q)

files_in-append : (p q : List (String × Entries)) → files_in (p ++ q) ≡ files_in p + files_in q
unfolding files_in
files_in-append [] q = omega arith
files_in-append ((path, entries) ∷ p) q = omega (arith, files_in-append p q)

-- What one directory gives.
record Listed (entries : Entries) (r : List FileMetadata × List (String × Entries)) : Type 0 where
  dirs : rounds r.1 ≡ count_dirs entries
  files : length r.0 + files_in r.1 ≡ count_files entries
  named : All IsNamed r.0

list_dir-Listed :
    (path : String) (entries : Entries) (r : List FileMetadata × List (String × Entries))
    → list_dir path entries ≡ ok r
    → Listed entries r
unfolding list_dir rounds files_in count_dirs count_files metadata_of
list_dir-Listed path end r e =
    let same : ([], []) ≡ r = cc in
    subst (Listed end) same (record { dirs = refl; files = refl; named = tt })
list_dir-Listed path (file name size modified more) r e =
    let (parts, safe, next) =
      bind_inv (sanitize_relative_path (utf8 (path <> "/" <> name))) _ r e in
    let (q, listed, last) = bind_inv (list_dir path more) _ r next in
    let found : FileMetadata = metadata_of (path <> "/" <> name) size modified in
    let same : (found ∷ q.0, q.1) ≡ r = cc in
    let h = list_dir-Listed path more q listed in
    subst (Listed (file name size modified more)) same
      (record { dirs = h.dirs; files = omega (arith, h.files); named = ((parts, safe), h.named) })
list_dir-Listed path (dir name entries more) r e =
    let (q, listed, last) = bind_inv (list_dir path more) _ r e in
    let below : String × Entries = (path <> "/" <> name, entries) in
    let same : (q.0, below ∷ q.1) ≡ r = cc in
    let h = list_dir-Listed path more q listed in
    subst (Listed (dir name entries more)) same
      (record { dirs = omega (arith, h.dirs); files = omega (arith, h.files); named = h.named })
list_dir-Listed path (special name more) r e =
    let h = list_dir-Listed path more r e in
    record { dirs = h.dirs; files = h.files; named = h.named }

-- What a scan that ends gives.
abbrev pub Scanned : ℕ → Result (List FileMetadata) → Type 0
Scanned count (ok files) = (length files ≡ count) × All IsNamed files
Scanned count (err e) = Unit {0}
Scanned count panic = Unit {0}

joined-Scanned :
    (files : List FileMetadata) (a b : ℕ) (later : Result (List FileMetadata))
    → length files + a ≡ b
    → All IsNamed files
    → Scanned a later
    → Scanned b (later >>= λ rest. ok (files ++ rest))
joined-Scanned files a b (ok rest) e h (l, k) =
    (omega (arith, length-append files rest, e, l), All-append IsNamed files rest h k)
joined-Scanned files a b (err x) e h k = tt
joined-Scanned files a b panic e h k = tt

scan_queue-Scanned :
    (fuel : ℕ) (queue : List (String × Entries))
    → rounds queue ≤ fuel
    → (r : Result (List FileMetadata)) × (scan_queue fuel queue ≡ some r)
      × Scanned (files_in queue) r
unfolding scan_queue rounds files_in
scan_queue-Scanned fuel [] l = (ok [], refl, (refl, tt))
scan_queue-Scanned zero ((path, entries) ∷ queue) l = absurd (omega arith)
scan_queue-Scanned (suc fuel) ((path, entries) ∷ queue) l =
    by_listing (λ dirs k. scan_queue-Scanned fuel (queue ++ dirs) k) (list_dir path entries) refl
  where
    by_listing :
        ((dirs : List (String × Entries))
          → rounds (queue ++ dirs) ≤ fuel
          → (r : Result (List FileMetadata)) × (scan_queue fuel (queue ++ dirs) ≡ some r)
            × Scanned (files_in (queue ++ dirs)) r)
        → (o : Result (List FileMetadata × List (String × Entries))) → list_dir path entries ≡ o
        → (r : Result (List FileMetadata)) × (scan_queue (suc fuel) ((path, entries) ∷ queue)
            ≡ some r)
          × Scanned (count_files entries + files_in queue) r
    by_listing further (ok (files, dirs)) e =
        let h = list_dir-Listed path entries (files, dirs) e in
        let (later, found, scanned) =
          further dirs (omega (arith, rounds-append queue dirs, h.dirs, l)) in
        (
          later >>= λ rest. ok (files ++ rest),
          rw (e, scan_queue, found) refl,
          joined-Scanned files (files_in (queue ++ dirs)) (count_files entries + files_in queue)
              later (omega (arith, files_in-append queue dirs, h.files)) h.named scanned,
        )
    by_listing further (err x) e = (err x, rw (e, scan_queue) refl, tt)
    by_listing further panic e = (panic, rw (e, scan_queue) refl, tt)

-- The scan of a folder ends, one round for each directory of the tree being enough; if it succeeds,
-- it lists as many files as the tree has, and the check that the receiver makes accepts the path of
-- each.
pub scan_folder-Scanned :
    (name : String) (entries : Entries)
    → (r : Result (List FileMetadata)) × (scan_folder name entries ≡ some r)
      × Scanned (count_files entries) r
unfolding scan_folder rounds files_in
scan_folder-Scanned name entries =
    let (r, found, scanned) =
      scan_queue-Scanned (suc (count_dirs entries)) ((name, entries) ∷ []) (omega arith) in
    (r, found, subst (λ n. Scanned n r) (omega arith) scanned)
