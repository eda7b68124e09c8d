-- ===== src/Files/Backup/Retention.antt =====
-- Retention: how many snapshots of a type are left.
use caddy_waf_ui.Prelude.{
  ℕ, suc, sym, ◌+◌, ◌-◌, ◌≤◌, ◌<◌, ◌≡◌, refl, true, some, List, [], ◌∷◌, arith, length, take,
  length-take, leb, if◌then◌else◌, inl, inr, Bool-cases, Option-cases, sort_by, length-sort_by,
  insert_by, zero, All, ◌∙◌,
}
use caddy_waf_ui.Text.{Bytes}
use caddy_waf_ui.Text.Laws.{beq_iff}
use caddy_waf_ui.Errors.{Error}
use caddy_waf_ui.System.{World, pure}
use caddy_waf_ui.System.Store.{FilePath, Disk, lookup, delete}
use caddy_waf_ui.System.Calls.{remove, read_dir, names_in, text_lt}
use caddy_waf_ui.System.Ends.{Ends, Ends-pure, Ends-bind, Ends-call, Ends-wrap, Ends-weaken}
use caddy_waf_ui.Files.Naming.{match_backup_name}
use caddy_waf_ui.Files.Backup.{has_type, snapshots_of, remove_all, oldest, enforce_retention}

-- The snapshots of a type that a directory Holds.
abbrev pub kept_snapshots : Bytes → Bytes → Disk → List Bytes
kept_snapshots dir file_type disk = snapshots_of file_type (names_in dir disk)

module _ (dir file_type : Bytes) where
  abbrev IsTyped : Bytes → Type 0
  IsTyped name = has_type file_type (match_backup_name name) ≡ true

  abbrev count : Disk → ℕ
  count disk = length (kept_snapshots dir file_type disk)

  count-delete_le : (p : FilePath) (disk : Disk) → count (delete p disk) ≤ count disk
  unfolding delete names_in snapshots_of
  count-delete_le p [] = omega arith
  count-delete_le p ((q, content) ∷ disk) = ground (arith, count-delete_le p disk)

  -- Removing a snapshot that is there leaves fewer.
  count-delete_lt :
      (name content : Bytes) (disk : Disk)
      → IsTyped name
      → lookup (record { dir = dir; name = name }) disk ≡ some content
      → count (delete (record { dir = dir; name = name }) disk) < count disk
  unfolding delete names_in snapshots_of lookup
  count-delete_lt name content [] typed h = absurd (cc)
  count-delete_lt name content ((q, old) ∷ disk) typed h = ground (
    arith,
    beq_iff q.dir dir,
    beq_iff q.name name,
    count-delete_le (record { dir = dir; name = name }) disk,
    count-delete_lt name content disk typed,
  )

  abbrev Unconstrained : Error → World → Type 0
  Unconstrained e v = Unit

  Ends-remove :
      (name : Bytes) (w : World)
      → IsTyped name
      → Ends
          (λ a v. count v.disk < count w.disk)
          Unconstrained
          (remove (record { dir = dir; name = name }))
          w
  unfolding remove
  Ends-remove name w typed =
      Ends-call _ _ w
        (λ os. record {
          at = elim (Option-cases (lookup (record { dir = dir; name = name }) w.disk)) [
            | inl gone ↦ rw gone tt
            | inr (content, there) ↦ rw there (count-delete_lt name content w.disk typed there)
          ];
        })
        (λ os n. tt)

  Ends-remove_all :
      (names : List Bytes) (w : World)
      → All IsTyped names
      → Ends
          (λ a v. count v.disk + length names ≤ count w.disk)
          Unconstrained
          (remove_all dir names)
          w
  unfolding remove_all
  Ends-remove_all [] w typed = Ends-pure tt w (omega arith)
  Ends-remove_all (name ∷ names) w typed =
      Ends-bind (λ a v. count v.disk < count w.disk) _ _ w
        (Ends-wrap _ Unconstrained _ w (Ends-remove name w typed.0) (λ e v h. tt))
        (λ a v fewer.
          Ends-weaken _ _ _ v (Ends-remove_all names v typed.1) (λ b u h. omega arith)
            (λ e u h. tt))

  IsTyped-insert_by :
      (name : Bytes) (names : List Bytes)
      → IsTyped name
      → All IsTyped names
      → All IsTyped (insert_by text_lt name names)
  unfolding insert_by
  IsTyped-insert_by name [] t h = (t, tt)
  IsTyped-insert_by name (x ∷ xs) t h = elim (Bool-cases (text_lt x name)) [
    | inl less ↦ rw less (h.0, IsTyped-insert_by name xs t h.1)
    | inr more ↦ rw more (t, h)
  ]

  IsTyped-sort_by : (names : List Bytes) → All IsTyped names → All IsTyped (sort_by text_lt names)
  unfolding sort_by
  IsTyped-sort_by [] h = tt
  IsTyped-sort_by (x ∷ xs) h = IsTyped-insert_by x (sort_by text_lt xs) h.0 (IsTyped-sort_by xs h.1)

  IsTyped-take : (n : ℕ) (names : List Bytes) → All IsTyped names → All IsTyped (take n names)
  IsTyped-take zero names h = tt
  IsTyped-take (suc n) [] h = tt
  IsTyped-take (suc n) (x ∷ xs) h = (h.0, IsTyped-take n xs h.1)

  IsTyped-snapshots_of : (names : List Bytes) → All IsTyped (snapshots_of file_type names)
  unfolding snapshots_of
  IsTyped-snapshots_of [] = tt
  IsTyped-snapshots_of (x ∷ xs) = elim (Bool-cases (has_type file_type (match_backup_name x))) [
    | inl typed ↦ rw typed (typed, IsTyped-snapshots_of xs)
    | inr other ↦ rw other (IsTyped-snapshots_of xs)
  ]

  count-insert_by :
      (name : Bytes) (names : List Bytes)
      → length (snapshots_of file_type (insert_by text_lt name names))
        ≡ length (snapshots_of file_type (name ∷ names))
  unfolding insert_by snapshots_of
  count-insert_by name [] = refl
  count-insert_by name (x ∷ xs) = ground (arith, count-insert_by name xs)

  count-cons :
      (name : Bytes) (xs ys : List Bytes)
      → length (snapshots_of file_type xs) ≡ length (snapshots_of file_type ys)
      → length (snapshots_of file_type (name ∷ xs)) ≡ length (snapshots_of file_type (name ∷ ys))
  unfolding snapshots_of
  count-cons name xs ys same = ground arith

  -- Listing in order loses no snapshot.
  count-sort_by :
      (names : List Bytes)
      → length (snapshots_of file_type (sort_by text_lt names))
        ≡ length (snapshots_of file_type names)
  unfolding sort_by
  count-sort_by [] = refl
  count-sort_by (x ∷ xs) =
      count-insert_by x (sort_by text_lt xs)
      ∙ count-cons x (sort_by text_lt xs) xs (count-sort_by xs)

  Ends-read_dir :
      (w : World)
      → Ends
          (λ entries v.
            (entries ≡ sort_by text_lt (names_in dir w.disk)) × (count v.disk ≡ count w.disk))
          Unconstrained
          (read_dir dir)
          w
  unfolding read_dir
  Ends-read_dir w = Ends-call _ _ w (λ os. record { at = (refl, refl) }) (λ os n. tt)

  -- The branch behind the listing, for a listing that has as many snapshots as the directory.
  Ends-limited :
      (limit : ℕ) (backups : List Bytes) (v : World)
      → All IsTyped backups
      → length backups ≡ count v.disk
      → Ends
          (λ a u. count u.disk ≤ limit)
          Unconstrained
          (if leb (length backups) limit then pure tt else remove_all dir (oldest limit backups))
          v
  Ends-limited limit backups v typed same = elim (Bool-cases (leb (length backups) limit)) [
    | inl within ↦ rw within (Ends-pure tt v (ground arith))
    | inr above ↦ rw above (
        Ends-weaken _ _ _ v
          (Ends-remove_all (oldest limit backups) v
            (IsTyped-take _ _ (IsTyped-sort_by backups typed)))
          (λ a u h. ground (
            arith,
            length-take (length backups - limit) (sort_by text_lt backups),
            length-sort_by text_lt backups,
          ))
          (λ e u h. tt))
  ]

  -- When the retention step succeeds, the directory Holds at most `limit` snapshots of the type.
  pub enforce_retention-le :
      (limit : ℕ) (w : World)
      → Ends
          (λ a v. length (kept_snapshots dir file_type v.disk) ≤ limit)
          Unconstrained
          (enforce_retention dir file_type limit)
          w
  unfolding enforce_retention
  enforce_retention-le limit w = Ends-bind _ _ _ w (Ends-read_dir w) (λ entries v h.
      Ends-limited limit (snapshots_of file_type entries) v (IsTyped-snapshots_of entries)
        (rw h.0 (count-sort_by (names_in dir w.disk) ∙ sym h.1)))
