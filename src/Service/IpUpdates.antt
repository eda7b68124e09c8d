-- ===== src/Service/IpUpdates.antt =====
-- `UpdateIPRules` of internal/service/chain.go.
use caddy_waf_ui.Prelude.{◌≡◌, some, [], ◌++◌, length}
use caddy_waf_ui.Text.{Bytes, str}
use caddy_waf_ui.Errors.{ok}
use caddy_waf_ui.System.{World, Context, Exec, lift, ◌>>◌}
use caddy_waf_ui.System.Store.{Disk, lookup}
use caddy_waf_ui.System.Ends.{Ends-weaken}
use caddy_waf_ui.Config.{managed_dir}
use caddy_waf_ui.Files.Naming.{file_type_ip_rules, ip_rules_config_path}
use caddy_waf_ui.Waf.Exclusions.{decimal_text}
use caddy_waf_ui.IpRules.{IpRules, Net, validate_ip_rules, generate_rules}
use caddy_waf_ui.Service.Validate.{validate_domain}
use caddy_waf_ui.Service.Chain.{Reloader, ChainOpts, fail_recorded, run_chain}
use caddy_waf_ui.Service.Chain.Outcome.{Mutation, Updated}
use caddy_waf_ui.Service.Chain.Run.{run_chain-Applied}
use caddy_waf_ui.Service.Updates.{domain_result, checked, new_site, generate_and_write}
use caddy_waf_ui.Service.Updates.Modes.{Apart}
use caddy_waf_ui.Service.Updates.Entries.{checked-Updated}
use caddy_waf_ui.Service.Updates.Written.{generate_and_write-Ends}

-- "allow:%d deny:%d".
abbrev sizes_text : IpRules → Bytes
sizes_text rules =
    str "allow:"
    ++ (decimal_text (length rules.allowlist)
        ++ (str " deny:" ++ decimal_text (length rules.denylist)))

abbrev pub ip_rules_opts : Net → Context → Bytes → IpRules → Bytes → ChainOpts
ip_rules_opts net ctx domain_name rules remote_ip =
    let conf_path = ip_rules_config_path (managed_dir ctx.env) domain_name in
    record {
      file_type = file_type_ip_rules;
      conf_path = conf_path;
      fail_event = str "iprules_failed";
      reload_fail_event = str "iprules_changed_but_reload_failed";
      success_event = str "iprules_updated";
      from = [];
      fail_to = [];
      to = sizes_text rules;
      mutate =
          generate_and_write ctx conf_path
            (fail_recorded domain_name remote_ip (str "iprules_failed") [] [])
            (generate_rules net (new_site domain_name []) rules ctx.now);
    }

unfoldable pub update_ip_rules :
    Reloader → Net → Context → Bytes → IpRules → Bytes → Exec (Unit {0})
update_ip_rules reloader net ctx domain_name rules remote_ip = do
  lift (domain_result (validate_domain domain_name))
  lift (checked (validate_ip_rules net rules))
  run_chain reloader ctx domain_name remote_ip (ip_rules_opts net ctx domain_name rules remote_ip)

-- The overlay holds what the generator gave.
pub record RulesWritten (net : Net) (ctx : Context) (domain_name : Bytes) (rules : IpRules)
    (disk : Disk) : Type 0 where
  pub snippet : Bytes
  pub generated : generate_rules net (new_site domain_name []) rules ctx.now ≡ ok snippet
  pub written : lookup (ip_rules_config_path (managed_dir ctx.env) domain_name) disk ≡ some snippet

module _ (reloader : Reloader) (net : Net) (ctx : Context) (domain_name remote_ip : Bytes)
    (apart : Apart ctx domain_name) (rules : IpRules) where
  pub ip_rules_mutation :
      Mutation ctx domain_name remote_ip
        (ip_rules_opts net ctx domain_name rules remote_ip)
        (RulesWritten net ctx domain_name rules)
  ip_rules_mutation = record {
    changes = λ w.
        Ends-weaken _ _ _ w
          (generate_and_write-Ends ctx domain_name remote_ip _ _ _ _
            (generate_rules net (new_site domain_name []) rules ctx.now) w)
          (λ a v h. (record { snippet = h.0; generated = h.1; written = h.2 }, h.3)) (λ e v h. h);
  }

  -- `UpdateIPRules`, where the overlays do not lie among the snapshots of the domain, ends in one of
  -- three ways. It succeeds: domain and lists are valid, the overlay is the generated snippet, and the
  -- success event is the one new event. It rejects the domain or a list, with the error of its
  -- validation: nothing has changed. Or, with a valid domain and lists, the chain fails: the overlay
  -- is as before, unless the error that it returns says that its restoration failed, and one failure
  -- event is the one new event.
  pub update_ip_rules-Applied :
      (w : World)
      → Updated domain_name
          (validate_ip_rules net rules)
          remote_ip
          (ip_rules_opts net ctx domain_name rules remote_ip)
          (RulesWritten net ctx domain_name rules)
          (update_ip_rules reloader net ctx domain_name rules remote_ip)
          w
  unfolding update_ip_rules ip_rules_config_path
  update_ip_rules-Applied w =
      checked-Updated domain_name remote_ip _ _ _ w (validate_ip_rules net rules)
        (run_chain-Applied reloader ctx domain_name remote_ip _ _ ip_rules_mutation apart w)
