-- ===== src/Service/Updates/Rollbacks.antt =====
-- The entry `Rollback`.
use mathlib.Core.Bool.{false≢true}
use caddy_waf_ui.Prelude.{
  ◌≡◌, ◌⊎◌, inl, inr, refl, sym, ap, ◌∙◌, ◌≢◌, false, Option, none, some, Bool-cases,
}
use caddy_waf_ui.Text.{Bytes, beq}
use caddy_waf_ui.Text.Laws.{beq_iff}
use caddy_waf_ui.Errors.{ok}
use caddy_waf_ui.System.{World, Context}
use caddy_waf_ui.System.Store.{FilePath, Disk, lookup}
use caddy_waf_ui.System.Calls.{temp_path}
use caddy_waf_ui.System.Ends.{
  Ends, Ends-and, Ends-Quiet, Ends-bind, Ends-catch, Ends-lift, Ends-weaken,
}
use caddy_waf_ui.Config.{managed_dir, backup_dir}
use caddy_waf_ui.Files.Naming.{
  backup_dir_path, overlay_path, overlay_path_dir, backup_type, backup_file_name,
}
use caddy_waf_ui.Files.Backup.{restore_backup, snapshot_path}
use caddy_waf_ui.Files.Backup.Restore.{snapshot_file, restore_backup-Restored, Quiet-restore_backup}
use caddy_waf_ui.Files.Writer.Atomic.{Elsewhere}
use caddy_waf_ui.Service.Chain.{Reloader, run_chain}
use caddy_waf_ui.Service.Chain.Outcome.{Mutation, Updated}
use caddy_waf_ui.Service.Chain.Run.{run_chain-Applied}
use caddy_waf_ui.Service.Updates.{rollback_opts, rollback}
use caddy_waf_ui.Service.Chain.Snapshots.{Stable-fail_recorded, Stable-run_chain}
use caddy_waf_ui.System.Stable.{Still, Stable, Stable-catch, Stable-Quiet, Ends-Stable}
use caddy_waf_ui.Service.Updates.Modes.{Apart}
use caddy_waf_ui.Service.Updates.Entries.{ChainEnds, validate_domain-Ends, accepted-Updated}
use caddy_waf_ui.Service.Updates.Written.{Ends-fail_recorded}

-- The overlay is a copy of the snapshot.
pub record Copied (ctx : Context) (domain_name backup_id : Bytes) (path : FilePath) (disk : Disk)
    : Type 0 where
  pub content : Bytes
  pub held : lookup (snapshot_file ctx domain_name backup_id) disk ≡ some content
  pub copied : lookup path disk ≡ some content

-- The overlay is a copy of the snapshot, which has the bytes that it had before, unless it is the one
-- that the backup of this call takes.
pub record CopyOf (ctx : Context) (domain_name backup_id file_type : Bytes) (path : FilePath)
    (before disk : Disk) : Type 0 where
  pub content : Bytes
  pub held : lookup (snapshot_file ctx domain_name backup_id) disk ≡ some content
  pub copied : lookup path disk ≡ some content
  pub unchanged :
      (backup_id ≡ backup_file_name ctx.stamp file_type)
      ⊎ (lookup (snapshot_file ctx domain_name backup_id) before ≡ some content)

-- The snapshot's name is well formed, and this is the overlay of its type.
pub record Names (ctx : Context) (domain_name backup_id file_type : Bytes) (path : FilePath)
    : Type 0 where
  pub typed : backup_type backup_id ≡ ok file_type
  pub placed : overlay_path (managed_dir ctx.env) file_type domain_name ≡ ok path

module _ (reloader : Reloader) (ctx : Context) (domain_name backup_id remote_ip : Bytes)
    (apart : Apart ctx domain_name) where
  module _ (file_type : Bytes) (path : FilePath)
      (names : Names ctx domain_name backup_id file_type path) where
    path-apart : path.dir ≢ backup_dir_path (backup_dir ctx.env) domain_name
    path-apart same = apart (sym (overlay_path_dir _ _ _ names.placed) ∙ same)

    Elsewhere-snapshot_file : Elsewhere ctx path (snapshot_file ctx domain_name backup_id)
    unfolding temp_path
    Elsewhere-snapshot_file = record {
      not_target = λ e. path-apart (ap (λ q. q.dir) e);
      not_temp = λ e. path-apart (ap (λ q. q.dir) e);
    }

    restored-Copied :
        (w : World)
        → Ends
            (λ a v. Copied ctx domain_name backup_id path v.disk × (v.trail ≡ w.trail))
            (λ e v. (lookup path v.disk ≡ lookup path w.disk) × (v.trail ≡ w.trail))
            (restore_backup ctx domain_name backup_id)
            w
    restored-Copied w =
        Ends-weaken _ _ _ w
          (Ends-and _ w
            (restore_backup-Restored ctx domain_name backup_id file_type path w names.typed
              names.placed)
            (Ends-Quiet (snapshot_file ctx domain_name backup_id) _ _ w
              (Quiet-restore_backup ctx domain_name backup_id file_type path names.typed
                names.placed)
              Elsewhere-snapshot_file refl))
          (λ a v h. (
            record { content = h.0.content; held = h.1 ∙ h.0.held; copied = h.0.copied },
            h.0.logged,
          ))
          (λ e v h. h.0)

    rollback_mutation :
        Mutation ctx domain_name remote_ip
          (rollback_opts ctx domain_name backup_id file_type path remote_ip)
          (Copied ctx domain_name backup_id path)
    rollback_mutation = record {
      changes = λ w.
          Ends-catch _ _ _ w (restored-Copied w)
            (λ e v h. Ends-fail_recorded _ _ _ _ _ _ _ _ _ _ _ v h.0 h.1);
    }

    Stable-rollback_mutation :
        (content : Option Bytes)
        → Stable
            (snapshot_file ctx domain_name backup_id)
            content
            (rollback_opts ctx domain_name backup_id file_type path remote_ip).mutate
    Stable-rollback_mutation content =
        Stable-catch (snapshot_file ctx domain_name backup_id) content _ _
          (Stable-Quiet (snapshot_file ctx domain_name backup_id) content _
            (Quiet-restore_backup ctx domain_name backup_id file_type path names.typed names.placed)
            Elsewhere-snapshot_file)
          (λ e. Stable-fail_recorded _ content _ _ _ _ _ _ _)

    other_snapshot :
        beq backup_id (backup_file_name ctx.stamp file_type) ≡ false
        → snapshot_path ctx domain_name file_type ≢ snapshot_file ctx domain_name backup_id
    other_snapshot other same =
        let is =
          (beq_iff backup_id (backup_file_name ctx.stamp file_type)).1
            (ap (λ q. q.name) (sym same)) in
        false≢true (sym other ∙ is)

    -- What is there after the run was there before, since it is not gone.
    Copied-CopyOf :
        (w v : World)
        → Copied ctx domain_name backup_id path v.disk
        → Still
            (snapshot_file ctx domain_name backup_id)
            (lookup (snapshot_file ctx domain_name backup_id) w.disk)
            v
        → CopyOf ctx domain_name backup_id file_type path w.disk v.disk
    Copied-CopyOf w v copy (inl same) = record {
      content = copy.content;
      held = copy.held;
      copied = copy.copied;
      unchanged = inr (sym same ∙ copy.held);
    }
    Copied-CopyOf w v copy (inr gone) = let held = copy.held in absurd (cc (gone, held))

    rollback_chain :
        (w : World)
        → ChainEnds domain_name remote_ip
            (rollback_opts ctx domain_name backup_id file_type path remote_ip)
            (CopyOf ctx domain_name backup_id file_type path w.disk)
            (run_chain reloader ctx domain_name remote_ip
              (rollback_opts ctx domain_name backup_id file_type path remote_ip))
            w
    rollback_chain w =
        let ends =
          run_chain-Applied reloader ctx domain_name remote_ip _ _ rollback_mutation path-apart w in
        elim (Bool-cases (beq backup_id (backup_file_name ctx.stamp file_type))) [
          | inl same ↦
              Ends-weaken _ _ _ w ends
                (λ a v h. record {
                  good = record {
                    content = h.good.content;
                    held = h.good.held;
                    copied = h.good.copied;
                    unchanged = inl ((beq_iff _ _).0 same);
                  };
                  recorded = h.recorded;
                })
                (λ e v h. h)
          | inr other ↦
              let snapshot = snapshot_file ctx domain_name backup_id in
              let old = lookup snapshot w.disk in
              Ends-weaken _ _ _ w
                (Ends-and _ w ends (
                  Ends-Stable snapshot old _ w
                    (Stable-run_chain snapshot old reloader ctx domain_name remote_ip _
                      Elsewhere-snapshot_file (other_snapshot other) (Stable-rollback_mutation old))
                    (inl refl)))
                (λ a v h. record { good = Copied-CopyOf w v h.0.good h.1; recorded = h.0.recorded })
                (λ e v h. h.0)
        ]

    -- Where the overlays do not lie among the snapshots of the domain, `Rollback` to a snapshot with a
    -- well-formed name ends in one of three ways. It succeeds: the domain is valid, the overlay of the
    -- snapshot's type is a copy of the snapshot, which has the bytes that it had before, unless it is
    -- the one that the backup of this call takes, and the success event is the one new event. It
    -- rejects the domain, with the error of its validation: nothing has changed. Or, with a valid
    -- domain, the chain fails: the overlay is as before, unless the error that it returns says that
    -- its restoration failed, and one failure event is the one new event.
    pub rollback-Applied :
        (w : World)
        → Updated domain_name none remote_ip
            (rollback_opts ctx domain_name backup_id file_type path remote_ip)
            (CopyOf ctx domain_name backup_id file_type path w.disk)
            (rollback reloader ctx domain_name backup_id remote_ip)
            w
    unfolding rollback
    rollback-Applied w =
        Ends-bind _ _ _ w
          (Ends-weaken _ _ _ w (validate_domain-Ends domain_name w) (λ a v h. h) (λ e v h. inl h))
          (λ a v h. rw h.1 (
            Ends-bind (λ t u. (t ≡ file_type) × (u ≡ w)) _ _ w
              (Ends-catch (λ e u. ⊥) _ _ w
                (Ends-weaken _ _ _ w (Ends-lift (backup_type backup_id) w)
                  (λ t u k. (cc (k.0, names.typed), k.1)) (λ e u k. cc (k.0, names.typed)))
                (λ e u k. absurd k))
              (λ t u k.
                rw (k.0, k.1)
                  (Ends-bind (λ p x. (p ≡ path) × (x ≡ w)) _ _ w
                    (Ends-catch (λ e x. ⊥) _ _ w
                      (Ends-weaken _ _ _ w
                        (Ends-lift (overlay_path (managed_dir ctx.env) file_type domain_name) w)
                        (λ p x m. (cc (m.0, names.placed), m.1)) (λ e x m. cc (m.0, names.placed)))
                      (λ e x m. absurd m))
                    (λ p x m.
                      rw (m.0, m.1)
                        (accepted-Updated domain_name remote_ip _ _ _ w none
                          (record { domain = h.0; payload = refl }) (rollback_chain w)))))))
