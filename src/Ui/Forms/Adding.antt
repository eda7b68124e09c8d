-- ===== src/Ui/Forms/Adding.antt =====
-- `HandleFormAddExclusion` of internal/ui/forms.go: the new exclusion joins those in force.
use caddy_waf_ui.Prelude.{
  ◌≡◌, ◌⊎◌, inl, inr, refl, ap, ◌∙◌, none, List, [], ◌∷◌, ◌++◌, All, arith, ◌==◌, false, ℕ,
}
use caddy_waf_ui.Text.{Bytes, str, join}
use caddy_waf_ui.Text.Trim.{Free, Free-append}
use caddy_waf_ui.Errors.{Error, Result, ok, err}
use caddy_waf_ui.System.{World, Context}
use caddy_waf_ui.System.Store.{lookup}
use caddy_waf_ui.System.Ends.{Ends, Holds, Ends-weaken, Ends-bind}
use caddy_waf_ui.Config.{managed_dir}
use caddy_waf_ui.Files.Naming.{exclusions_config_path}
use caddy_waf_ui.Waf.Exclusions.{Exclusion, dedupe_exclusions}
use caddy_waf_ui.IpRules.{Net}
use caddy_waf_ui.Service.Validate.{validate_domain}
use caddy_waf_ui.Service.Validate.Grammar.{IsLabel, IsLabelByte, validate_domain_iff}
use caddy_waf_ui.Service.Chain.{Reloader}
use caddy_waf_ui.Service.Chain.Outcome.{IsRestoreFailure}
use caddy_waf_ui.Service.Updates.{new_site, update_exclusions}
use caddy_waf_ui.Service.Updates.Modes.{Apart, Generated, update_exclusions-Applied}
use caddy_waf_ui.Web.Http.{Request, Answer}
use caddy_waf_ui.Ui.Overlay.{parse_exclusions_overlay}
use caddy_waf_ui.Ui.Overlay.RoundTrip.{parse_exclusions_overlay-generate_exclusions}
use caddy_waf_ui.Ui.Overlay.Reading.{Same, parsed, exclusions_in_force, Ends-read_exclusions}
use caddy_waf_ui.Ui.Forms.{
  redirect_after_form, success_flash, error_flash, form_answer, form_exclusion, add_exclusion,
  handle_form_add_exclusion,
}

-- A host name holds no newline.
label_byte : (c : ℕ) → IsLabelByte c → (c == 10) ≡ false
label_byte c h = ground (arith, h)

label-Free : (w : Bytes) → All IsLabelByte w → Free 10 w
label-Free [] h = tt
label-Free (c ∷ w) h = (label_byte c h.0, label-Free w h.1)

labels-Free : (ws : List Bytes) → All (Free 10) ws → Free 10 (join ws (str "."))
unfolding join
labels-Free [] h = tt
labels-Free (w ∷ []) h = h.0
labels-Free (w ∷ (v ∷ ws)) h =
    Free-append 10 w (str "." ++ join (v ∷ ws) (str ".")) h.0 (refl, labels-Free (v ∷ ws) h.1)

All-Free : (ws : List Bytes) → All IsLabel ws → All (Free 10) ws
All-Free [] h = tt
All-Free (w ∷ ws) h = (label-Free w h.0.bytes, All-Free ws h.1)

pub valid_domain-Free : (d : Bytes) → validate_domain d ≡ none → Free 10 d
valid_domain-Free d h =
    let host = (validate_domain_iff d).0 h in
    rw host.joined (
      labels-Free host.labels (elim host.fine [
        | inl labels ↦ All-Free host.labels labels.1
        | inr (rest, wild, enough, labels) ↦ rw wild ((refl, tt), All-Free rest labels)
      ]))

module _ (reloader : Reloader) (net : Net) (ctx : Context) (d : Bytes) (r : Request)
    (apart : Apart ctx d) (now_line : Free 10 ctx.now) where
  -- The exclusions in force after an update are those that were sent.
  sent_in_force :
      (exs : List Exclusion) (v : World)
      → validate_domain d ≡ none
      → Generated ctx d exs v.disk
      → exclusions_in_force ctx d v ≡ dedupe_exclusions exs
  unfolding exclusions_in_force
  sent_in_force exs v valid made = rw made.written (
      parse_exclusions_overlay-generate_exclusions (new_site d []) exs ctx.now made.snippet
        (valid_domain-Free d valid) now_line made.generated)

  -- The form's exclusion joined those in force, or they are in force as before.
  pub data Added (w : World) : Answer × World → Type 0 where
    added :
        (v : World)
        → add_exclusion reloader net ctx d r w ≡ (ok tt, v)
        → exclusions_in_force ctx d v
          ≡ dedupe_exclusions (exclusions_in_force ctx d w ++ (form_exclusion r ∷ []))
        → Added w (redirect_after_form r success_flash, v)
    not_added :
        (e : Error) (v : World)
        → add_exclusion reloader net ctx d r w ≡ (err e, v)
        → IsRestoreFailure e ⊎ (exclusions_in_force ctx d v ≡ exclusions_in_force ctx d w)
        → Added w (redirect_after_form r error_flash, v)

  update_exclusions-force :
      (exs : List Exclusion) (v : World)
      → Ends
          (λ a u. exclusions_in_force ctx d u ≡ dedupe_exclusions exs)
          (λ e u. IsRestoreFailure e ⊎ (exclusions_in_force ctx d u ≡ exclusions_in_force ctx d v))
          (update_exclusions reloader ctx d exs r.remote_addr)
          v
  unfolding exclusions_in_force
  update_exclusions-force exs v =
      Ends-weaken _ _ _ v (update_exclusions-Applied reloader ctx d r.remote_addr apart exs v)
        (λ a u h. sent_in_force exs u h.0.domain h.1.good)
        (λ e u h. elim h [
          | inl rejected ↦ inr (ap (exclusions_in_force ctx d) rejected.1)
          | inr run ↦ elim run.1.kept [
            | inl failure ↦ inl failure
            | inr kept ↦ inr (ap (parsed parse_exclusions_overlay []) kept)
          ]
        ])

  result-Added :
      (w : World) (ran : Result (Unit {0}) × World)
      → add_exclusion reloader net ctx d r w ≡ ran
      → Holds
          (λ a u.
            exclusions_in_force ctx d u
            ≡ dedupe_exclusions (exclusions_in_force ctx d w ++ (form_exclusion r ∷ [])))
          (λ e u. IsRestoreFailure e ⊎ (exclusions_in_force ctx d u ≡ exclusions_in_force ctx d w))
          ran.0
          ran.1
      → Added w (form_answer r ran.0, ran.1)
  result-Added w (ok a, v) same h = added v same h
  result-Added w (err e, v) same h = not_added e v same h

  Same-force : (w v : World) → Same w v → exclusions_in_force ctx d v ≡ exclusions_in_force ctx d w
  unfolding exclusions_in_force
  Same-force w v same =
      ap
        (λ disk.
          parsed parse_exclusions_overlay []
            (lookup (exclusions_config_path (managed_dir ctx.env) d) disk))
        same.disk

  -- `HandleFormAddExclusion`, where the overlays do not lie among the snapshots of the domain and the
  -- time holds no newline: it flashes success only if the overlay, read again, holds the exclusions
  -- that it held before and the new one, each once and in that order. When it flashes an error, the
  -- overlay holds what it held, unless the error that the service returned is that of its restoration.
  pub handle_form_add_exclusion-Added :
      (w : World) → Added w (handle_form_add_exclusion reloader net ctx d r w)
  unfolding handle_form_add_exclusion add_exclusion
  handle_form_add_exclusion-Added w =
      let ends =
        Ends-bind (λ current v. (current ≡ exclusions_in_force ctx d w) × Same w v) _ _ w
          (Ends-weaken _ _ _ w (Ends-read_exclusions ctx d w) (λ a v h. h)
            (λ e v h. inr (Same-force w v h)))
          (λ current v h. rw h.0 (
            Ends-weaken _ _ _ v
              (update_exclusions-force (exclusions_in_force ctx d w ++ (form_exclusion r ∷ [])) v)
              (λ a u k. k)
              (λ e u k. elim k [
                | inl failure ↦ inl failure
                | inr kept ↦ inr (kept ∙ Same-force w v h.1)
              ]))) in
      result-Added w (add_exclusion reloader net ctx d r w) refl ends.at
