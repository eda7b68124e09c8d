-- ===== src/Ui/Api/Modes.antt =====
-- The answers of `HandleSetMode` of internal/ui/api.go.
use caddy_waf_ui.Prelude.{
  ◌≡◌, inl, inr, refl, ap, ◌∙◌, true, false, none, some, if◌then◌else◌, List, [], ◌∷◌, Bool-cases,
  Option-cases,
}
use caddy_waf_ui.Text.{Bytes, str}
use caddy_waf_ui.Errors.{
  Error, DomainFault, Sentinel, err_invalid_mode, invalid_mode, is_error, ok, err,
}
use caddy_waf_ui.System.{World, Context, raise, lift, ◌>>=◌}
use caddy_waf_ui.System.Store.{lookup}
use caddy_waf_ui.System.Ends.{Ends-weaken, Ends-returned}
use caddy_waf_ui.System.Unmarked.{Unmarked}
use caddy_waf_ui.Config.{managed_dir}
use caddy_waf_ui.Domain.Model.{WafMode}
use caddy_waf_ui.Files.Naming.{waf_config_path}
use caddy_waf_ui.IpRules.{Net}
use caddy_waf_ui.Service.Validate.{validate_domain}
use caddy_waf_ui.Service.Chain.{Reloader, run_chain}
use caddy_waf_ui.Service.Chain.Outcome.{Applied, Refused, IsAccepted}
use caddy_waf_ui.Service.Chain.Run.{run_chain-Applied}
use caddy_waf_ui.Service.Updates.{is_mode, mode_opts, update_waf_mode}
use caddy_waf_ui.Service.Updates.Modes.{Apart, ModeWritten, mode_fault, mode_mutation}
use caddy_waf_ui.Service.Updates.Unmarked.{Unmarked-mode_chain}
use caddy_waf_ui.Web.Http.{Request, Answer}
use caddy_waf_ui.Web.Reply.{http_error}
use caddy_waf_ui.Ui.Api.{
  Codec, decoded, decode_json_body, client_ip, error_answer, answered, domain_known, failed_text,
  handle_set_mode,
}
use caddy_waf_ui.Ui.Api.Endings.{
  Ended, turned_down, chain-Ended, Unread, with_body-Ended, decode_json_body-unread,
}

abbrev mode_known : List (Sentinel × Bytes)
mode_known = domain_known ∷ ((err_invalid_mode, str "Invalid WAF mode") ∷ [])

-- Why a request for a mode is turned down: its body, its domain or its mode.
pub data BadMode (codec : Codec) (d : Bytes) (r : Request) : Answer → Type 0 where
  mode_unread : (a : Answer) → Unread r a → BadMode codec d r a
  mode_domain :
      (fault : DomainFault)
      → validate_domain d ≡ some fault
      → BadMode codec d r (http_error 400 (str "Invalid domain"))
  mode_unknown :
      (mode : WafMode)
      → decode_json_body codec.mode r ≡ decoded mode
      → is_mode mode ≡ false
      → BadMode codec d r (http_error 400 (str "Invalid WAF mode"))

module _ (reloader : Reloader) (codec : Codec) (net : Net) (ctx : Context) (d : Bytes) (r : Request)
    (reloads : Unmarked reloader.run) (apart : Apart ctx d) (w : World) where
  -- The chain ran for the mode that the body holds.
  pub record ModeApplied (v : World) : Type 0 where
    mode : WafMode
    read : decode_json_body codec.mode r ≡ decoded mode
    accepted : IsAccepted d (mode_fault mode)
    returned : update_waf_mode reloader ctx d mode (client_ip r) w ≡ (ok tt, v)
    outcome :
        Applied d
          (client_ip r)
          (mode_opts ctx d mode (client_ip r))
          (ModeWritten ctx d mode)
          w.trail
          v

  -- The chain ran for the mode that the body holds, and returned this error.
  pub record ModeLost (e : Error) (v : World) : Type 0 where
    mode : WafMode
    read : decode_json_body codec.mode r ≡ decoded mode
    accepted : IsAccepted d (mode_fault mode)
    returned : update_waf_mode reloader ctx d mode (client_ip r) w ≡ (err e, v)
    outcome :
        Refused d
          (client_ip r)
          (mode_opts ctx d mode (client_ip r))
          (lookup (waf_config_path (managed_dir ctx.env) d) w.disk)
          w.trail
          e
          v

  chain_runs :
      (mode : WafMode)
      → validate_domain d ≡ none
      → is_mode mode ≡ true
      → update_waf_mode reloader ctx d mode (client_ip r) w
        ≡ run_chain reloader ctx d (client_ip r) (mode_opts ctx d mode (client_ip r)) w
  unfolding update_waf_mode lift ◌>>=◌
  chain_runs mode fine good = rw (fine, good) refl

  mode_checked :
      (mode : WafMode)
      → decode_json_body codec.mode r ≡ decoded mode
      → Ended
          (BadMode codec d r)
          ModeApplied
          ModeLost
          w
          (answered mode_known failed_text (update_waf_mode reloader ctx d mode (client_ip r)) w)
  unfolding update_waf_mode lift raise ◌>>=◌ error_answer is_error waf_config_path
  mode_checked mode read = elim (Option-cases (validate_domain d)) [
    | inr (fault, bad) ↦ rw (bad, update_waf_mode) (turned_down _ (mode_domain fault bad))
    | inl fine ↦ elim (Bool-cases (is_mode mode)) [
      | inr bad ↦ rw (fine, bad) (turned_down _ (mode_unknown mode read bad))
      | inl good ↦
          let is : IsAccepted d (mode_fault mode) = record {
            domain = fine;
            payload = ap (λ b. if b then none else some invalid_mode) good;
          } in
          let same = chain_runs mode fine good in
          rw (fine, good)
            (chain-Ended (BadMode codec d r) ModeApplied ModeLost mode_known failed_text _ w
              (Ends-weaken _ _ _ w
                (Ends-returned _ _ _ w (
                  run_chain-Applied reloader ctx d (client_ip r) _ _
                    (mode_mutation reloader ctx d (client_ip r) apart mode) apart w))
                (λ a v h. record {
                  mode = mode;
                  read = read;
                  accepted = is;
                  returned = same ∙ h.1;
                  outcome = h.0;
                })
                (λ e v h. record {
                  mode = mode;
                  read = read;
                  accepted = is;
                  returned = same ∙ h.1;
                  outcome = h.0;
                }))
              (Unmarked-mode_chain ctx d (client_ip r) reloader reloads mode))
    ]
  ]

  pub handle_set_mode-Ended :
      Ended
        (BadMode codec d r)
        ModeApplied
        ModeLost
        w
        (handle_set_mode reloader codec net ctx d r w)
  unfolding handle_set_mode
  handle_set_mode-Ended =
      with_body-Ended r (BadMode codec d r) ModeApplied ModeLost _ w (decode_json_body codec.mode r)
        mode_unread (decode_json_body-unread codec.mode r) mode_checked
