-- ===== src/Service/Updates/Entries.antt =====
-- The validations in front of the chain, in the entries of internal/service/chain.go.
use caddy_waf_ui.Prelude.{
  ◌≡◌, inl, inr, refl, Bool, true, false, not, Option, none, some, if◌then◌else◌,
}
use caddy_waf_ui.Text.{Bytes}
use caddy_waf_ui.Errors.{Error, DomainFault, invalid_mode}
use caddy_waf_ui.System.{World, Exec, lift, raise, ◌>>=◌, ◌>>◌}
use caddy_waf_ui.System.Store.{Disk, lookup}
use caddy_waf_ui.System.Ends.{Ends, Ends-weaken}
use caddy_waf_ui.Service.Validate.{validate_domain}
use caddy_waf_ui.Service.Chain.{ChainOpts}
use caddy_waf_ui.Service.Chain.Outcome.{
  Applied, Refused, Rejected, bad_domain, bad_payload, IsAccepted, Updated,
}
use caddy_waf_ui.Service.Updates.{domain_result, checked}

-- The check of the domain alone.
domain-Ends :
    (domain_name : Bytes) (dom : Option DomainFault) (w : World)
    → validate_domain domain_name ≡ dom
    → Ends
        (λ a v. (validate_domain domain_name ≡ none) × (v ≡ w))
        (λ e v. Rejected domain_name none e × (v ≡ w))
        (lift (domain_result dom))
        w
unfolding lift
domain-Ends domain_name none w e = record { at = (e, refl) }
domain-Ends domain_name (some f) w e = record { at = (bad_domain f e, refl) }

pub validate_domain-Ends :
    (domain_name : Bytes) (w : World)
    → Ends
        (λ a v. (validate_domain domain_name ≡ none) × (v ≡ w))
        (λ e v. Rejected domain_name none e × (v ≡ w))
        (lift (domain_result (validate_domain domain_name)))
        w
validate_domain-Ends domain_name w = domain-Ends domain_name (validate_domain domain_name) w refl

module _ (domain_name remote_ip : Bytes) (opts : ChainOpts) (Good : Disk → Type 0)
    (chain : Exec (Unit {0})) (w : World) where
  -- The chain on its own.
  abbrev pub ChainEnds : Type 0
  ChainEnds =
      Ends (λ a v. Applied domain_name remote_ip opts Good w.trail v)
        (λ e v. Refused domain_name remote_ip opts (lookup opts.conf_path w.disk) w.trail e v) chain
        w

  pub accepted-Updated :
      (fault : Option Error)
      → IsAccepted domain_name fault
      → ChainEnds
      → Updated domain_name fault remote_ip opts Good chain w
  accepted-Updated fault is h = Ends-weaken _ _ _ w h (λ a v k. (is, k)) (λ e v k. inr (is, k))

  behind_checks :
      (dom : Option DomainFault)
      → validate_domain domain_name ≡ dom
      → (fault : Option Error) → ChainEnds
      → Updated domain_name fault remote_ip opts Good
          (do lift (domain_result dom); lift (checked fault); chain)
          w
  unfolding lift raise ◌>>=◌
  behind_checks (some f) e fault h = record { at = inl (bad_domain f e, refl) }
  behind_checks none e (some x) h = record { at = inl (bad_payload x e refl, refl) }
  behind_checks none e none h = record {
    at = (accepted-Updated none (record { domain = e; payload = refl }) h).at;
  }

  -- An entry that checks the domain, then its payload.
  pub checked-Updated :
      (fault : Option Error)
      → ChainEnds
      → Updated domain_name fault remote_ip opts Good
          (do lift (domain_result (validate_domain domain_name)); lift (checked fault); chain)
          w
  checked-Updated = behind_checks (validate_domain domain_name) refl

  behind_mode :
      (dom : Option DomainFault)
      → validate_domain domain_name ≡ dom
      → (known : Bool) → ChainEnds
      → Updated domain_name
          (if known then none else some invalid_mode)
          remote_ip
          opts
          Good
          (do lift (domain_result dom); if not known then raise invalid_mode else chain)
          w
  unfolding lift raise ◌>>=◌
  behind_mode (some f) e known h = record { at = inl (bad_domain f e, refl) }
  behind_mode none e false h = record { at = inl (bad_payload invalid_mode e refl, refl) }
  behind_mode none e true h = record {
    at = (accepted-Updated none (record { domain = e; payload = refl }) h).at;
  }

  -- The entry that checks the domain, then the mode.
  pub mode-Updated :
      (known : Bool)
      → ChainEnds
      → Updated domain_name
          (if known then none else some invalid_mode)
          remote_ip
          opts
          Good
          (do
            lift (domain_result (validate_domain domain_name))
            if not known then raise invalid_mode else chain)
          w
  mode-Updated = behind_mode (validate_domain domain_name) refl
