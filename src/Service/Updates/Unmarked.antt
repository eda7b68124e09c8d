-- ===== src/Service/Updates/Unmarked.antt =====
-- The errors of the entries of internal/service/chain.go behind their validations.
use caddy_waf_ui.Prelude.{
  not, ◌&&◌, if◌then◌else◌, refl, Bool, true, false, Option, none, some, List, [], ◌∷◌,
}
use caddy_waf_ui.Text.{Bytes, str, beq, join}
use caddy_waf_ui.Errors.{
  Error, Result, ok, err, generating, writing, invalid_id, invalid_tag, unknown_type, invalid_param,
  is_error,
}
use caddy_waf_ui.System.{Context, Exec, ReloadStatus}
use caddy_waf_ui.System.Store.{FilePath}
use caddy_waf_ui.System.Unmarked.{
  IsUnmarked, IsUnmarked-wrapped, Unmarked, UnmarkedResult, Unmarked-catch,
}
use caddy_waf_ui.Files.Writer.Unmarked.{Unmarked-atomic_write}
use caddy_waf_ui.Domain.Model.{Site, WafMode}
use caddy_waf_ui.Waf.Exclusions.{
  Exclusion, check_value, check_param, validate_exclusions, generate_exclusions, is_id, is_tag,
  exclude_by_id, exclude_by_tag,
}
use caddy_waf_ui.IpRules.{
  Net, IpRules, normalize_entry, normalize_entries, generate_rules, onto, of_ip, render,
}
use caddy_waf_ui.Service.IpUpdates.{ip_rules_opts}
use caddy_waf_ui.Service.Chain.{Reloader, fail_recorded, run_chain}
use caddy_waf_ui.Service.Chain.Unmarked.{Unmarked-fail_recorded, Unmarked-run_chain}
use caddy_waf_ui.Service.Updates.{generate_and_write, mode_opts, exclusions_opts}

pub Unmarked-generate_and_write :
    (ctx : Context) (p : FilePath) (fail : ReloadStatus → Error → Exec (Unit {0}))
    (generated : Result Bytes)
    → ((status : ReloadStatus) (e : Error) → IsUnmarked e → Unmarked (fail status e))
    → UnmarkedResult generated
    → Unmarked (generate_and_write ctx p fail generated)
unfolding generate_and_write
Unmarked-generate_and_write ctx p fail (err e) fails h =
    fails _ _ (IsUnmarked-wrapped generating e h)
Unmarked-generate_and_write ctx p fail (ok snippet) fails h =
    Unmarked-catch _ _ (Unmarked-atomic_write ctx p snippet)
      (λ e k. fails _ _ (IsUnmarked-wrapped writing e k))

abbrev UnmarkedOption : Option Error → Type 0
UnmarkedOption none = Unit
UnmarkedOption (some e) = IsUnmarked e

unmarked_if :
    (b : Bool) (x y : Option Error)
    → UnmarkedOption x
    → UnmarkedOption y
    → UnmarkedOption (if b then x else y)
unmarked_if true x y h k = h
unmarked_if false x y h k = k

-- A value in its class, or the error for it.
value_fault :
    (fine : Bool) (e : Error) → IsUnmarked e → UnmarkedOption (if fine then none else some e)
value_fault true e h = tt
value_fault false e h = h

check_value-unmarked : (ex : Exclusion) → UnmarkedOption (check_value ex)
unfolding check_value is_error
check_value-unmarked ex =
    unmarked_if (beq ex.type exclude_by_id)
      (if is_id ex.value then none else some (invalid_id ex.value))
      (if beq ex.type exclude_by_tag
        then (if is_tag ex.value then none else some (invalid_tag ex.value))
        else some (unknown_type ex.type))
      (value_fault (is_id ex.value) (invalid_id ex.value) (record { none_of = λ s. refl }))
      (unmarked_if (beq ex.type exclude_by_tag)
        (if is_tag ex.value then none else some (invalid_tag ex.value))
        (some (unknown_type ex.type))
        (value_fault (is_tag ex.value) (invalid_tag ex.value) (record { none_of = λ s. refl }))
        (record { none_of = λ s. refl }))

check_param-unmarked : (ex : Exclusion) → UnmarkedOption (check_param ex)
unfolding check_param is_error
check_param-unmarked ex =
    unmarked_if (not (beq ex.param []) && not (is_tag ex.param)) (some (invalid_param ex.param))
      none (record { none_of = λ s. refl }) tt

first_fault :
    (value param rest : Option Error)
    → UnmarkedOption value
    → UnmarkedOption param
    → UnmarkedOption rest
    → UnmarkedOption
        (elim value [ some e ↦ some e | none ↦ elim param [ some e ↦ some e | none ↦ rest ] ])
first_fault none none rest h k l = l
first_fault none (some e) rest h k l = k
first_fault (some e) param rest h k l = h

pub validate_exclusions-unmarked : (exs : List Exclusion) → UnmarkedOption (validate_exclusions exs)
unfolding validate_exclusions
validate_exclusions-unmarked [] = tt
validate_exclusions-unmarked (ex ∷ exs) =
    first_fault (check_value ex) (check_param ex) (validate_exclusions exs)
      (check_value-unmarked ex) (check_param-unmarked ex) (validate_exclusions-unmarked exs)

made_or_fault :
    (fault : Option Error) (text : Bytes)
    → UnmarkedOption fault
    → UnmarkedResult (elim fault [ some e ↦ err e | none ↦ ok text ])
made_or_fault none text h = tt
made_or_fault (some e) text h = h

pub generate_exclusions-unmarked :
    (site : Site) (exs : List Exclusion) (ts : Bytes)
    → UnmarkedResult (generate_exclusions site exs ts)
unfolding generate_exclusions
generate_exclusions-unmarked site exs ts =
    made_or_fault (validate_exclusions exs) _ (validate_exclusions-unmarked exs)

address_or_fault :
    (cidr : Option Bytes) (ip : Option (Bool × Bytes)) (entry : Bytes)
    → UnmarkedResult (elim cidr [ some network ↦ ok network | none ↦ of_ip entry ip ])
unfolding is_error
address_or_fault (some network) ip entry = tt
address_or_fault none none entry = record { none_of = λ s. refl }
address_or_fault none (some (true, text)) entry = tt
address_or_fault none (some (false, text)) entry = tt

more_or_fault :
    (first : Result Bytes) (rest : Result (List Bytes))
    → UnmarkedResult first
    → UnmarkedResult rest
    → UnmarkedResult (elim first [ ok text ↦ onto text rest | err e ↦ err e ])
more_or_fault (ok text) (ok texts) h k = tt
more_or_fault (ok text) (err e) h k = k
more_or_fault (err e) rest h k = h

normalize_entries-unmarked :
    (net : Net) (entries : List Bytes) → UnmarkedResult (normalize_entries net entries)
unfolding normalize_entries normalize_entry
normalize_entries-unmarked net [] = tt
normalize_entries-unmarked net (entry ∷ entries) =
    more_or_fault (normalize_entry net entry) (normalize_entries net entries)
      (address_or_fault (net.parse_cidr entry) (net.parse_ip entry) entry)
      (normalize_entries-unmarked net entries)

both_or_fault :
    (denied allowed : Result (List Bytes)) (f : List Bytes → List Bytes → Bytes)
    → UnmarkedResult denied
    → UnmarkedResult allowed
    → UnmarkedResult (elim denied [
      | err e ↦ err e
      | ok ds ↦ elim allowed [ err e ↦ err e | ok as' ↦ ok (f ds as') ]
    ])
both_or_fault (err e) allowed f h k = h
both_or_fault (ok ds) (err e) f h k = k
both_or_fault (ok ds) (ok as') f h k = tt

pub generate_rules-unmarked :
    (net : Net) (site : Site) (rules : IpRules) (ts : Bytes)
    → UnmarkedResult (generate_rules net site rules ts)
unfolding generate_rules
generate_rules-unmarked net site rules ts =
    both_or_fault (normalize_entries net rules.denylist) (normalize_entries net rules.allowlist)
      (λ ds as'. render site (join ds (str " ")) (join as' (str " ")) ts)
      (normalize_entries-unmarked net rules.denylist)
      (normalize_entries-unmarked net rules.allowlist)

-- The mutations of the three entries that generate an overlay.
module _ (ctx : Context) (domain_name remote_ip : Bytes) where
  generated_step :
      (p : FilePath) (event from fail_to : Bytes) (generated : Result Bytes)
      → UnmarkedResult generated
      → Unmarked (
          generate_and_write ctx p
            (fail_recorded domain_name remote_ip event from fail_to)
            generated)
  generated_step p event from fail_to generated h =
      Unmarked-generate_and_write ctx p _ generated
        (λ status e k. Unmarked-fail_recorded domain_name remote_ip event from fail_to status e k) h

  module _ (reloader : Reloader) (reloads : Unmarked reloader.run) where
    pub Unmarked-mode_chain :
        (mode : WafMode)
        → Unmarked (
            run_chain reloader ctx domain_name remote_ip (mode_opts ctx domain_name mode remote_ip))
    Unmarked-mode_chain mode =
        Unmarked-run_chain reloader ctx domain_name remote_ip _ reloads
          (generated_step _ _ _ _ _ tt)

    pub Unmarked-exclusions_chain :
        (exs : List Exclusion)
        → Unmarked (
            run_chain reloader ctx domain_name remote_ip
              (exclusions_opts ctx domain_name exs remote_ip))
    Unmarked-exclusions_chain exs =
        Unmarked-run_chain reloader ctx domain_name remote_ip _ reloads
          (generated_step _ _ _ _ _ (generate_exclusions-unmarked _ exs _))

    pub Unmarked-ip_rules_chain :
        (net : Net) (rules : IpRules)
        → Unmarked (
            run_chain reloader ctx domain_name remote_ip
              (ip_rules_opts net ctx domain_name rules remote_ip))
    Unmarked-ip_rules_chain net rules =
        Unmarked-run_chain reloader ctx domain_name remote_ip _ reloads
          (generated_step _ _ _ _ _ (generate_rules-unmarked net _ rules _))
