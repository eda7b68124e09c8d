-- ===== src/Service/Chain/Outcome.antt =====
-- How a run of the chain may end: what is said of the overlay and of the audit trail.
use caddy_waf_ui.Prelude.{◌≡◌, ◌⊎◌, Option, none, some, List, [], ◌∷◌, ◌++◌}
use caddy_waf_ui.Text.{Bytes}
use caddy_waf_ui.Errors.{Error, DomainFault, invalid_domain, restoring_overlay, wrapped}
use caddy_waf_ui.System.{World, Context, Exec, Action, ReloadStatus}
use caddy_waf_ui.System.Store.{Disk, lookup}
use caddy_waf_ui.System.Ends.{Ends}
use caddy_waf_ui.Logs.Trail.{or_unknown}
use caddy_waf_ui.Service.Validate.{validate_domain}
use caddy_waf_ui.Service.Chain.{ChainOpts}

-- The one error that admits an overlay which is neither the old nor the new one.
abbrev pub IsRestoreFailure : Error → Type 0
IsRestoreFailure (wrapped restoring_overlay e) = Unit
IsRestoreFailure _ = ⊥

-- The trail has one more event, of this kind.
pub record Recorded (event domain from to remote_ip : Bytes) (trail : List Action) (w : World)
    : Type 0 where
  pub status : ReloadStatus
  pub appended :
      w.trail
      ≡ trail
        ++ record {
          event = event;
          domain = domain;
          from = or_unknown from;
          to = or_unknown to;
          remote_ip = remote_ip;
          caddy_reload = status;
        }
          ∷ []

-- What the chain needs of the step that produces and writes the new overlay.
pub record Mutation (ctx : Context) (domain_name remote_ip : Bytes) (opts : ChainOpts)
    (Good : Disk → Type 0) : Type 0 where
  pub changes :
      (w : World)
      → Ends
          (λ a v. Good v.disk × (v.trail ≡ w.trail))
          (λ e v.
            (lookup opts.conf_path v.disk ≡ lookup opts.conf_path w.disk)
            × Recorded opts.fail_event domain_name opts.from opts.fail_to remote_ip w.trail v)
          opts.mutate
          w

-- The new overlay is in place, and the success is recorded.
pub record Applied (domain_name remote_ip : Bytes) (opts : ChainOpts) (Good : Disk → Type 0)
    (trail : List Action) (v : World) : Type 0 where
  pub good : Good v.disk
  pub recorded : Recorded opts.success_event domain_name opts.from opts.to remote_ip trail v

-- The old overlay is in place, or its restoration failed; the failure is recorded.
pub record Refused (domain_name remote_ip : Bytes) (opts : ChainOpts) (old : Option Bytes)
    (trail : List Action) (e : Error) (v : World) : Type 0 where
  pub kept : IsRestoreFailure e ⊎ (lookup opts.conf_path v.disk ≡ old)
  pub recorded :
      Recorded opts.fail_event domain_name opts.from opts.fail_to remote_ip trail v
      ⊎ Recorded opts.reload_fail_event domain_name opts.from opts.to remote_ip trail v

-- What an entry of the service refuses before its chain: the domain, or with a valid domain the
-- payload, whose fault is given.
pub data Rejected (domain_name : Bytes) (fault : Option Error) : Error → Type 0 where
  bad_domain :
      (f : DomainFault)
      → validate_domain domain_name ≡ some f
      → Rejected domain_name fault (invalid_domain f)
  bad_payload :
      (e : Error)
      → validate_domain domain_name ≡ none
      → fault ≡ some e
      → Rejected domain_name fault e

pub record IsAccepted (domain_name : Bytes) (fault : Option Error) : Type 0 where
  pub domain : validate_domain domain_name ≡ none
  pub payload : fault ≡ none

-- How an entry ends. It returns without an error: domain and payload are accepted, and the chain is
-- applied. It returns an error: that of a rejection, and nothing has changed, or domain and payload
-- are accepted and the chain has failed with this error.
abbrev pub Updated :
    (domain_name : Bytes) (fault : Option Error) (remote_ip : Bytes) (opts : ChainOpts)
    (Good : Disk → Type 0) (m : Exec (Unit {0})) (w : World)
    → Type 0
Updated domain_name fault remote_ip opts Good m w =
    Ends (λ a v. IsAccepted domain_name fault × Applied domain_name remote_ip opts Good w.trail v)
      (λ e v.
        (Rejected domain_name fault e × (v ≡ w))
        ⊎ (IsAccepted domain_name fault
            × Refused domain_name remote_ip opts (lookup opts.conf_path w.disk) w.trail e v))
      m w
