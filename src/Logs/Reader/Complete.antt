-- ===== src/Logs/Reader/Complete.antt =====
-- The records that the loops of `Read` of internal/logs/reader.go meet.
use caddy_waf_ui.Prelude.{
  ℕ, zero, suc, ◌<◌, ◌≡◌, ◌≢◌, ◌⊎◌, inl, inr, refl, ap, ◌∙◌, none, some, List, [], ◌∷◌, ◌++◌, ◌==◌,
  if◌then◌else◌, length, arith, Bool-cases, Option-cases,
}
use caddy_waf_ui.Text.{Bytes, onto_first, trim_space}
use caddy_waf_ui.Text.Laws.{beq_iff}
use caddy_waf_ui.Logs.Matches.{AuditEntry, matches}
use caddy_waf_ui.Logs.Entry.{
  AuditLine, Formats, Decoded, at_end, malformed, decoded, entry_from_line, parse_line,
}
use caddy_waf_ui.Logs.Reader.{
  Options, Found, note_record, stream_entries, read_lines, is_blank, line_entries,
}

-- A value takes at least one byte of the input.
abbrev pub Shrinks : Formats → Type 0
Shrinks formats =
    (input : Bytes) (line : AuditLine) (rest : Bytes)
    → formats.decode input ≡ decoded line rest
    → length rest < length input

-- The entries of the values that stand one after the other in an input, up to its end or to what
-- cannot be decoded, and how often something is no entry: a value that is none, or the undecodable rest.
pub data Values (formats : Formats) : Bytes → List AuditEntry → ℕ → Type 0 where
  ended : {input : Bytes} → formats.decode input ≡ at_end → Values formats input [] 0
  broken : {input : Bytes} → formats.decode input ≡ malformed → Values formats input [] 1
  value :
      {input rest : Bytes} {line : AuditLine} {entries : List AuditEntry} {bad : ℕ}
      (entry : AuditEntry)
      → formats.decode input ≡ decoded line rest
      → entry_from_line formats line ≡ some entry
      → Values formats rest entries bad
      → Values formats input (entry ∷ entries) bad
  no_entry :
      {input rest : Bytes} {line : AuditLine} {entries : List AuditEntry} {bad : ℕ}
      → formats.decode input ≡ decoded line rest
      → entry_from_line formats line ≡ none
      → Values formats rest entries bad
      → Values formats input entries (suc bad)

pub kept : Options → List AuditEntry → List AuditEntry
kept opts [] = []
kept opts (e ∷ es) =
    let rest = kept opts es in if matches e opts.search opts.action then e ∷ rest else rest

-- What is found in such an input: the entries that match, in their order, and a complaint for each
-- thing that is none.
pub record Streamed (formats : Formats) (opts : Options) (input : Bytes) (found : Found)
    : Type 0 where
  pub all : List AuditEntry
  pub bad : ℕ
  pub values : Values formats input all bad
  pub kept_ones : found.entries ≡ kept opts all
  pub complained : length found.complaints ≡ bad

Decoded-cases :
    (d : Decoded)
    → (d ≡ at_end)
      ⊎ ((d ≡ malformed) ⊎ ((line : AuditLine) × ((rest : Bytes) × (d ≡ decoded line rest))))
Decoded-cases at_end = inl refl
Decoded-cases malformed = inr (inl refl)
Decoded-cases (decoded line rest) = inr (inr (line, (rest, refl)))

-- Where each value takes at least a byte and the fuel is above the length of the input, as that with
-- which `Read` starts is, the loop over concatenated objects reads the input to its end or to what
-- cannot be decoded: it finds the entries that match, in their order, and logs one complaint for each
-- value that is no entry and for an undecodable rest.
pub stream_entries-Streamed :
    (formats : Formats) (opts : Options)
    → Shrinks formats
    → (fuel : ℕ) (input : Bytes) → length input < fuel
    → Streamed formats opts input (stream_entries formats opts fuel input)
unfolding stream_entries note_record kept
stream_entries-Streamed formats opts shrinks zero input h = absurd (omega (arith, h))
stream_entries-Streamed formats opts shrinks (suc fuel) input h =
    elim (Decoded-cases (formats.decode input)) [
      | inl e ↦
          rw (e, stream_entries)
            record { all = []; bad = 0; values = ended e; kept_ones = refl; complained = refl }
      | inr (inl e) ↦
          rw (e, stream_entries)
            record { all = []; bad = 1; values = broken e; kept_ones = refl; complained = refl }
      | inr (inr (line, (rest, e))) ↦
          let later =
            stream_entries-Streamed formats opts shrinks fuel rest
              (omega (arith, h, shrinks input line rest e)) in
          elim (Option-cases (entry_from_line formats line)) [
            | inl none_there ↦
                rw (e, none_there, stream_entries)
                  record {
                    all = later.all;
                    bad = suc later.bad;
                    values = no_entry e none_there later.values;
                    kept_ones = later.kept_ones;
                    complained = ap (λ n. suc n) later.complained;
                  }
            | inr (entry, there) ↦
                rw (e, there, stream_entries)
                  record {
                    all = entry ∷ later.all;
                    bad = later.bad;
                    values = value entry e there later.values;
                    kept_ones = ground (arith, later.kept_ones);
                    complained = ground (arith, later.complained);
                  }
          ]
    ]

concat : List Bytes → Bytes
concat [] = []
concat (line ∷ lines) = line ++ concat lines

concat-onto_first : (c : ℕ) (lines : List Bytes) → concat (onto_first c lines) ≡ c ∷ concat lines
unfolding concat
concat-onto_first c [] = refl
concat-onto_first c (line ∷ lines) = refl

concat-read_lines : (input : Bytes) → concat (read_lines input) ≡ input
unfolding read_lines concat
concat-read_lines [] = refl
concat-read_lines (c ∷ cs) = elim (Bool-cases (c == 10)) [
  | inl e ↦ rw (e, read_lines, concat) (ap (λ t. c ∷ t) (concat-read_lines cs))
  | inr e ↦
      rw (e, read_lines)
        (concat-onto_first c (read_lines cs) ∙ ap (λ t. c ∷ t) (concat-read_lines cs))
]

-- The entries of the lines that are records, and how many lines are none.
pub data Records (formats : Formats) : List Bytes → List AuditEntry → ℕ → Type 0 where
  done : Records formats [] [] 0
  blank :
      {line : Bytes} {lines : List Bytes} {entries : List AuditEntry} {bad : ℕ}
      → trim_space line ≡ []
      → Records formats lines entries bad
      → Records formats (line ∷ lines) entries bad
  record_of :
      {line : Bytes} {lines : List Bytes} {entries : List AuditEntry} {bad : ℕ} (entry : AuditEntry)
      → trim_space line ≢ []
      → parse_line formats line ≡ some entry
      → Records formats lines entries bad
      → Records formats (line ∷ lines) (entry ∷ entries) bad
  refused :
      {line : Bytes} {lines : List Bytes} {entries : List AuditEntry} {bad : ℕ}
      → trim_space line ≢ []
      → parse_line formats line ≡ none
      → Records formats lines entries bad
      → Records formats (line ∷ lines) entries (suc bad)

-- What is found in lines: the records that match, in their order, and a complaint for each bad line.
pub record Complete (formats : Formats) (opts : Options) (lines : List Bytes) (found : Found)
    : Type 0 where
  pub all : List AuditEntry
  pub bad : ℕ
  pub records : Records formats lines all bad
  pub kept_ones : found.entries ≡ kept opts all
  pub complained : length found.complaints ≡ bad

-- Line by line nothing is lost in silence: every line is blank, or a record, shown if it matches the
-- filter, or it is logged as unparseable.
pub line_entries-Complete :
    (formats : Formats) (opts : Options) (number : ℕ) (lines : List Bytes)
    → Complete formats opts lines (line_entries formats opts number lines)
unfolding line_entries note_record kept
line_entries-Complete formats opts number [] = record {
  all = [];
  bad = 0;
  records = done;
  kept_ones = refl;
  complained = refl;
}
line_entries-Complete formats opts number (line ∷ lines) =
    let later = line_entries-Complete formats opts (suc number) lines in
    elim (Bool-cases (is_blank line)) [
      | inl empty ↦
          rw (empty, line_entries)
            record {
              all = later.all;
              bad = later.bad;
              records = blank ((beq_iff (trim_space line) []).0 empty) later.records;
              kept_ones = later.kept_ones;
              complained = later.complained;
            }
      | inr full ↦
          let not_blank : trim_space line ≢ [] =
            λ e. absurd (ground (arith, full, (beq_iff (trim_space line) []).1 e)) in
          elim (Option-cases (parse_line formats line)) [
            | inl e ↦
                rw (full, e, line_entries)
                  record {
                    all = later.all;
                    bad = suc later.bad;
                    records = refused not_blank e later.records;
                    kept_ones = later.kept_ones;
                    complained = ap (λ n. suc n) later.complained;
                  }
            | inr (entry, e) ↦
                rw (full, e, line_entries)
                  record {
                    all = entry ∷ later.all;
                    bad = later.bad;
                    records = record_of entry not_blank e later.records;
                    kept_ones = ground (arith, later.kept_ones);
                    complained = ground (arith, later.complained);
                  }
          ]
    ]
