-- ===== src/Files/Backup/Restore.antt =====
-- `RestoreBackup`: the bytes of a snapshot come back, or nothing changes.
use caddy_waf_ui.Prelude.{◌≡◌, ◌∙◌, ap, some}
use caddy_waf_ui.Text.{Bytes}
use caddy_waf_ui.Errors.{Result, ok, err}
use caddy_waf_ui.System.{World, Context, raise, lift, catch, ◌>>=◌}
use caddy_waf_ui.System.Store.{FilePath, lookup}
use caddy_waf_ui.System.Calls.{read_file}
use caddy_waf_ui.System.Frame.{Quiet, quiet_rules, Quiet-bind, Quiet-bind_at, Quiet-lift, Returns}
use caddy_waf_ui.System.Ends.{
  Ends, Ends-raise, Ends-bind, Ends-catch, Ends-lift, Ends-read_file, Ends-logged, Ends-weaken,
}
use caddy_waf_ui.Config.{managed_dir, backup_dir}
use caddy_waf_ui.Files.Naming.{backup_dir_path, overlay_path, backup_type}
use caddy_waf_ui.Files.Writer.{atomic_write}
use caddy_waf_ui.Files.Writer.Atomic.{Elsewhere, atomic_write-lookup, Quiet-atomic_write}
use caddy_waf_ui.Files.Backup.{restore_backup, restore_error}

module _ (ctx : Context) (domain_name snapshot_id : Bytes) where
  abbrev pub snapshot_file : FilePath
  snapshot_file = record {
    dir = backup_dir_path (backup_dir ctx.env) domain_name;
    name = snapshot_id;
  }

  -- The overlay holds the bytes that the snapshot held before.
  pub record Restored (path : FilePath) (w v : World) : Type 0 where
    pub content : Bytes
    pub held : lookup snapshot_file w.disk ≡ some content
    pub copied : lookup path v.disk ≡ some content
    pub logged : v.trail ≡ w.trail

  abbrev Same : FilePath → World → World → Type 0
  Same path w v = (lookup path v.disk ≡ lookup path w.disk) × (v.trail ≡ w.trail)

  -- Writing what was read, in a world like the one that it was read in.
  Ends-copied :
      (path : FilePath) (content : Bytes) (w v : World)
      → lookup snapshot_file w.disk ≡ some content
      → Same path w v
      → Ends (λ a u. Restored path w u) (λ e u. Same path w u) (atomic_write ctx path content) v
  Ends-copied path content w v held same =
      Ends-weaken _ _ _ v
        (Ends-logged _ v (Quiet-atomic_write ctx path content)
          (atomic_write-lookup ctx path content v))
        (λ a u h. record { content = content; held = held; copied = h.0; logged = h.1 ∙ same.1 })
        (λ e u h. (h.0 ∙ same.0, h.1 ∙ same.1))

  Ends-read :
      (path : FilePath) (file_type : Bytes) (w : World)
      → overlay_path (managed_dir ctx.env) file_type domain_name ≡ ok path
      → Ends
          (λ a u. Restored path w u)
          (λ e u. Same path w u)
          (do
            content ← catch (read_file snapshot_file) (λ e. raise (restore_error snapshot_id e))
            conf_path ← lift (overlay_path (managed_dir ctx.env) file_type domain_name)
            atomic_write ctx conf_path content)
          w
  Ends-read path file_type w placed =
      Ends-bind (λ content v. (lookup snapshot_file w.disk ≡ some content) × Same path w v) _ _ w
        (Ends-catch (λ e v. Same path w v) _ _ w
          (Ends-weaken _ _ _ w (Ends-read_file snapshot_file w)
            (λ content v h. (h.0, (ap (lookup path) h.1, h.2)))
            (λ e v h. (ap (lookup path) h.1, h.2)))
          (λ e v h. Ends-raise _ v h))
        (λ content v h.
          Ends-bind (λ p u. (p ≡ path) × (u ≡ v)) _ _ v
            (Ends-weaken _ _ _ v
              (Ends-lift (overlay_path (managed_dir ctx.env) file_type domain_name) v)
              (λ p u k. (cc, k.1)) (λ e u k. absurd (cc)))
            (λ p u k. rw (k.0, k.1) (Ends-copied path content w v h.0 h.1)))

  -- `RestoreBackup` of a well-named snapshot puts the snapshot's bytes in the overlay of its type, or
  -- fails and leaves the overlay and the trail as they were.
  pub restore_backup-Restored :
      (file_type : Bytes) (path : FilePath) (w : World)
      → backup_type snapshot_id ≡ ok file_type
      → overlay_path (managed_dir ctx.env) file_type domain_name ≡ ok path
      → Ends
          (λ a v. Restored path w v)
          (λ e v. (lookup path v.disk ≡ lookup path w.disk) × (v.trail ≡ w.trail))
          (restore_backup ctx domain_name snapshot_id)
          w
  unfolding restore_backup
  restore_backup-Restored file_type path w typed placed =
      Ends-bind (λ t v. (t ≡ file_type) × (v ≡ w)) _ _ w
        (Ends-weaken _ _ _ w (Ends-lift (backup_type snapshot_id) w) (λ t v h. (cc, h.1))
          (λ e v h. absurd (cc)))
        (λ t v h. rw (h.0, h.1) (Ends-read path file_type w placed))

  Returns-ok : {A : Type 0} (a : A) (r : Result A) → r ≡ ok a → Returns a r
  Returns-ok a (ok b) e = cc
  Returns-ok a (err e') e = tt

  -- `RestoreBackup` touches the overlay of the snapshot's type and its temporary file only.
  pub Quiet-restore_backup :
      (file_type : Bytes) (path : FilePath)
      → backup_type snapshot_id ≡ ok file_type
      → overlay_path (managed_dir ctx.env) file_type domain_name ≡ ok path
      → Quiet (Elsewhere ctx path) (restore_backup ctx domain_name snapshot_id)
  unfolding restore_backup lift
  Quiet-restore_backup file_type path typed placed =
      Quiet-bind_at file_type _ _ (λ w. Returns-ok file_type (backup_type snapshot_id) typed)
        (Quiet-lift (backup_type snapshot_id))
        (Quiet-bind _ _ (search quiet_rules) (λ content.
          Quiet-bind_at path _ _
            (λ w. Returns-ok path (overlay_path (managed_dir ctx.env) file_type domain_name) placed)
            (Quiet-lift (overlay_path (managed_dir ctx.env) file_type domain_name))
            (Quiet-atomic_write ctx path content)))
