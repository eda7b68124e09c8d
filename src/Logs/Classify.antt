-- ===== src/Logs/Classify.antt =====
-- `classify` and `disruptiveVerb` of internal/logs/reader.go.
use caddy_waf_ui.Prelude.{
  ℕ, ◌≡◌, ◌≢◌, ◌⊎◌, ◌↔◌, inl, inr, refl, Bool, true, false, ◌||◌, List, [], ◌∷◌, arith, ◌==◌,
  if◌then◌else◌, All,
}
use caddy_waf_ui.Text.{Bytes, str, beq, has_prefix, split, to_lower, trim_space, trim_by}

-- The two actions that the UI knows: "BLOCKED" and "DETECTED".
pub data Verdict : Type 0 where
  blocked detected : Verdict

abbrev pub action_text : Verdict → Bytes
action_text blocked = str "BLOCKED"
action_text detected = str "DETECTED"

-- The verb that a token or a set of tokens stands for; Go's texts are "deny", "pass" and "".
pub data Verb : Type 0 where
  deny pass no_verb : Verb

abbrev is_quote : ℕ → Bool
is_quote c = (c == 39) || (c == 34)

unfoldable pub verb_of_token : Bytes → Verb
verb_of_token raw =
    let token = trim_by is_quote (trim_space raw) in
    if beq token (str "deny")
      || (beq token (str "drop")
          || (beq token (str "redirect") || has_prefix token (str "redirect:")))
    then deny
    else if beq token (str "pass") || beq token (str "allow")
    then pass
    else no_verb

-- The first token with a verb decides.
pub first_verb : List Bytes → Verb
first_verb [] = no_verb
first_verb (token ∷ tokens) =
    let rest = first_verb tokens in elim (verb_of_token token) [ no_verb ↦ rest | v ↦ v ]

pub disruptive_verb : Bytes → Verb
disruptive_verb actionset = first_verb (split actionset b',')

-- The switch on the explicit action of the transaction.
pub explicit_verb : Bytes → Verb
explicit_verb tx_action =
    let action = to_lower (trim_space tx_action) in
    if beq action (str "deny") || (beq action (str "drop") || beq action (str "redirect"))
    then deny
    else if beq action (str "pass") || beq action (str "allow")
    then pass
    else no_verb

classify_sets : Bool → List Bytes → Verdict
classify_sets interrupted [] = if interrupted then blocked else detected
classify_sets interrupted (set ∷ sets) =
    let rest = classify_sets interrupted sets in
    elim (disruptive_verb set) [ deny ↦ blocked | pass ↦ detected | no_verb ↦ rest ]

pub classify : Bytes → Bool → List Bytes → Verdict
unfolding classify_sets
classify tx_action interrupted actionsets =
    let by_sets = classify_sets interrupted actionsets in
    elim (explicit_verb tx_action) [ deny ↦ blocked | pass ↦ detected | no_verb ↦ by_sets ]

-- The first of the sets that has a verb has this one.
pub data Decides (v : Verb) : List Bytes → Type 0 where
  first :
      {set : Bytes} (sets : List Bytes)
      → disruptive_verb set ≡ v
      → v ≢ no_verb
      → Decides v (set ∷ sets)
  later :
      {set : Bytes} {sets : List Bytes}
      → disruptive_verb set ≡ no_verb
      → Decides v sets
      → Decides v (set ∷ sets)

abbrev pub Silent : List Bytes → Type 0
Silent = All (λ set. disruptive_verb set ≡ no_verb)

-- What counts as blocked: the explicit action; without one the first set with a verb; without any
-- verb the interruption.
abbrev pub IsBlocked : Bytes → Bool → List Bytes → Type 0
IsBlocked tx_action interrupted sets =
    (explicit_verb tx_action ≡ deny)
    ⊎ ((explicit_verb tx_action ≡ no_verb)
        × (Decides deny sets ⊎ (Silent sets × (interrupted ≡ true))))

Verb-cases : (v : Verb) → (v ≡ deny) ⊎ ((v ≡ pass) ⊎ (v ≡ no_verb))
Verb-cases deny = inl refl
Verb-cases pass = inr (inl refl)
Verb-cases no_verb = inr (inr refl)

sets_sound :
    (interrupted : Bool) (sets : List Bytes)
    → classify_sets interrupted sets ≡ blocked
    → Decides deny sets ⊎ (Silent sets × (interrupted ≡ true))
unfolding classify_sets
sets_sound true [] h = inr (tt, refl)
sets_sound false [] h = absurd (cc)
sets_sound interrupted (set ∷ sets) h = elim (Verb-cases (disruptive_verb set)) [
  | inl denies ↦ inl (first sets denies (λ e. cc))
  | inr (inl passes) ↦ absurd (ground arith)
  | inr (inr silent) ↦ elim (sets_sound interrupted sets (ground arith)) [
    | inl decided ↦ inl (later silent decided)
    | inr (all_silent, cut) ↦ inr ((silent, all_silent), cut)
  ]
]

decided_blocked :
    (interrupted : Bool) {sets : List Bytes}
    → Decides deny sets
    → classify_sets interrupted sets ≡ blocked
unfolding classify_sets
decided_blocked interrupted (first sets e n) = rw (e, classify_sets) refl
decided_blocked interrupted (later e d) = rw (e, classify_sets) (decided_blocked interrupted d)

Silent-blocked : (sets : List Bytes) → Silent sets → classify_sets true sets ≡ blocked
unfolding classify_sets
Silent-blocked [] h = refl
Silent-blocked (set ∷ sets) h = rw (h.0, classify_sets) (Silent-blocked sets h.1)

-- An entry is BLOCKED exactly when its explicit action denies; or there is no known explicit action,
-- and the first actionset with a disruptive verb denies, or none has one and it was interrupted.
pub classify_iff :
    (tx_action : Bytes) (interrupted : Bool) (sets : List Bytes)
    → (classify tx_action interrupted sets ≡ blocked) ↔ IsBlocked tx_action interrupted sets
unfolding classify
classify_iff tx_action interrupted sets = (
  λ h. elim (Verb-cases (explicit_verb tx_action)) [
    | inl denies ↦ inl denies
    | inr (inl passes) ↦ absurd (ground arith)
    | inr (inr silent) ↦ inr (silent, sets_sound interrupted sets (ground arith))
  ],
  λ h. elim h [
    | inl denies ↦ rw (denies, classify) refl
    | inr (silent, inl decided) ↦ rw (silent, classify) (decided_blocked interrupted decided)
    | inr (silent, inr (all_silent, cut)) ↦
        rw (silent, cut, classify) (Silent-blocked sets all_silent)
  ],
)
