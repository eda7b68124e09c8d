-- ===== src/Tests/Headers.antt =====
-- A header and a scan at concrete inputs.
use caddy_waf_ui.Prelude.{◌≡◌, inr, refl, some}
use caddy_waf_ui.Text.{str, is_space}
use caddy_waf_ui.Domain.Overlay.{header}
use caddy_waf_ui.Domain.Header.{Clock, parse_header}
use caddy_waf_ui.Domain.Header.RoundTrip.{IsField, read_back, parse_header-header}

abbrev clock : Clock
clock raw = some raw

name-IsField : IsField (str "a.com")
unfolding is_space
name-IsField = record {
  filled = λ e. absurd (cc);
  no_space = (refl, (refl, (refl, (refl, (refl, tt)))));
  no_bar = (refl, (refl, (refl, (refl, (refl, tt)))));
}

mode-IsField : IsField (str "On")
unfolding is_space
mode-IsField = record {
  filled = λ e. absurd (cc);
  no_space = (refl, (refl, tt));
  no_bar = (refl, (refl, tt));
}

time-IsField : IsField (str "12:00")
unfolding is_space
time-IsField = record {
  filled = λ e. absurd (cc);
  no_space = (refl, (refl, (refl, (refl, (refl, tt)))));
  no_bar = (refl, (refl, (refl, (refl, (refl, tt)))));
}

parse_header-header_example :
    parse_header clock (header (str "a.com") (str "On") (str "12:00"))
    ≡ some (read_back clock (str "a.com") (str "On") (str "12:00"))
parse_header-header_example =
    parse_header-header clock (str "a.com") (str "On") (str "12:00") name-IsField (inr mode-IsField)
      time-IsField
