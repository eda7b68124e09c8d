-- ===== src/Ui/Api/Endings.antt =====
-- How the handlers of internal/ui/api.go end.
use caddy_waf_ui.Prelude.{
  ◌<◌, ◌≡◌, refl, Bool, true, false, List, [], ◌∷◌, length, ltb, take, ltb→lt, if◌then◌else◌,
}
use caddy_waf_ui.Text.{Bytes}
use caddy_waf_ui.Errors.{Error, Sentinel, Result, ok, err}
use caddy_waf_ui.System.{World, Exec}
use caddy_waf_ui.System.Ends.{Ends, Holds}
use caddy_waf_ui.System.Unmarked.{IsUnmarked, Unmarked, UnmarkedResult}
use caddy_waf_ui.Web.Http.{Request, Answer}
use caddy_waf_ui.Web.Reply.{http_error}
use caddy_waf_ui.Ui.Api.{
  Reading, value, malformed, needs_more, max_body_bytes, Decoded, decoded, unreadable, bad_payload,
  too_large, of_reading, decode_json_body, status_success, error_answer, outcome_answer, answered,
  with_body,
}

-- How a handler ends: it refuses the request with an answer of `Bad` and changes nothing, or the
-- configuration is applied and it answers 200, or the chain fails and it answers 500.
pub data Ended (Bad : Answer → Type 0) (Good : World → Type 0) (Lost : Error → World → Type 0)
    (w : World) : Answer × World → Type 0 where
  turned_down : (a : Answer) → Bad a → Ended Bad Good Lost w (a, w)
  applied : (v : World) → Good v → Ended Bad Good Lost w (status_success, v)
  failed :
      (text : Bytes) (e : Error) (v : World)
      → Lost e v
      → Ended Bad Good Lost w (http_error 500 text, v)

unmarked_answer :
    (known : List (Sentinel × Bytes)) (text : Bytes) (e : Error)
    → IsUnmarked e
    → error_answer known text e ≡ http_error 500 text
unfolding error_answer
unmarked_answer [] text e h = refl
unmarked_answer ((sentinel, answer) ∷ known) text e h =
    rw (h.none_of sentinel) (unmarked_answer known text e h)

module _ (Bad : Answer → Type 0) (Good : World → Type 0) (Lost : Error → World → Type 0) where
  result-Ended :
      (known : List (Sentinel × Bytes)) (text : Bytes) (r : Result (Unit {0})) (w v : World)
      → Holds (λ a. Good) Lost r v
      → UnmarkedResult r
      → Ended Bad Good Lost w (outcome_answer known text r, v)
  result-Ended known text (ok a) w v h k = applied v h
  result-Ended known text (err e) w v h k = rw (unmarked_answer known text e k) (failed text e v h)

  -- A chain behind the validations.
  pub chain-Ended :
      (known : List (Sentinel × Bytes)) (text : Bytes) (m : Exec (Unit {0})) (w : World)
      → Ends (λ a. Good) Lost m w
      → Unmarked m
      → Ended Bad Good Lost w (answered known text m w)
  chain-Ended known text m w h k = result-Ended known text (m w).0 w (m w).1 h.at (k.result w)

-- A body that cannot be read: 413 for one that is longer than the limit, else 400.
pub data Unread (r : Request) : Answer → Type 0 where
  unread : Unread r bad_payload
  unread_long : max_body_bytes < length r.body → Unread r too_large

abbrev pub UnreadDecoded : {A : Type 0} → Request → Decoded A → Type 0
UnreadDecoded r (decoded a) = Unit
UnreadDecoded r (unreadable answer) = Unread r answer

long_or_not :
    (r : Request) (over : Bool)
    → ltb max_body_bytes (length r.body) ≡ over
    → Unread r (if over then too_large else bad_payload)
long_or_not r true h = unread_long (ltb→lt max_body_bytes (length r.body) h)
long_or_not r false h = unread

reading-UnreadDecoded :
    {A : Type 0} (r : Request) (reading : Reading A)
    → UnreadDecoded r (of_reading (ltb max_body_bytes (length r.body)) reading)
reading-UnreadDecoded r (value a) = tt
reading-UnreadDecoded r malformed = unread
reading-UnreadDecoded r needs_more = long_or_not r (ltb max_body_bytes (length r.body)) refl

pub decode_json_body-unread :
    {A : Type 0} (read : Bytes → Reading A) (r : Request)
    → UnreadDecoded r (decode_json_body read r)
unfolding decode_json_body
decode_json_body-unread read r = reading-UnreadDecoded r (read (take max_body_bytes r.body))

pub with_body-Ended :
    {A : Type 0} (r : Request) (Bad : Answer → Type 0) (Good : World → Type 0)
    (Lost : Error → World → Type 0) (f : A → World → Answer × World) (w : World) (d : Decoded A)
    → ((a : Answer) → Unread r a → Bad a)
    → UnreadDecoded r d
    → ((a : A) → d ≡ decoded a → Ended Bad Good Lost w (f a w))
    → Ended Bad Good Lost w (with_body d f w)
with_body-Ended r Bad Good Lost f w (decoded a) bad h k = k a refl
with_body-Ended r Bad Good Lost f w (unreadable answer) bad h k = turned_down answer (bad answer h)
