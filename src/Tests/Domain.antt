-- ===== src/Tests/Domain.antt =====
-- Slugs and host names at concrete inputs.
use caddy_waf_ui.Prelude.{◌≡◌, ◌↔◌, ◌∷◌, ◌++◌, refl, All, none}
use caddy_waf_ui.Text.{str}
use caddy_waf_ui.Domain.Slug.{domain_slug, IsSlugByte, domain_slug-IsSlugByte, dot-domain_slug}
use caddy_waf_ui.Service.Validate.{validate_domain}
use caddy_waf_ui.Service.Validate.Grammar.{IsHostname, validate_domain_iff}

slug_of_wildcard : domain_slug (str "*.Example.com") ≡ str "wildcard_example_com"
unfolding domain_slug
slug_of_wildcard = refl

slug_of_injection : domain_slug (str "a/../b\nx") ≡ str "a____b_x"
unfolding domain_slug
slug_of_injection = refl

domain_slug-IsSlugByte_example : All IsSlugByte (domain_slug (str "../a.com\nabort"))
domain_slug-IsSlugByte_example = domain_slug-IsSlugByte (str "../a.com\nabort")

validate_domain_iff_example :
    (validate_domain (str "*.example.com") ≡ none) ↔ IsHostname (str "*.example.com")
validate_domain_iff_example = validate_domain_iff (str "*.example.com")

dot-domain_slug_example :
    domain_slug (str "a" ++ (b'.' ∷ str "b.com")) ≡ domain_slug (str "a" ++ (b'-' ∷ str "b.com"))
dot-domain_slug_example = dot-domain_slug (str "a") (str "b.com")
