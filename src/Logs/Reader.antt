-- ===== src/Logs/Reader.antt =====
-- `Read` of internal/logs/reader.go: the records of the tail of the audit log, filtered, newest first.
pub mod Complete
use caddy_waf_ui.Prelude.{
  ℕ, zero, suc, ◌+◌, Bool, true, false, ◌≡◌, Option, none, some, List, [], ◌∷◌, ◌++◌, map, not,
  ◌&&◌, ◌==◌, if◌then◌else◌, ℤ, length, reverse, any,
}
use caddy_waf_ui.Text.{Bytes, beq, onto_first, trim_space}
use caddy_waf_ui.System.{Exec, ◌>>=◌, pure}
use caddy_waf_ui.System.Store.{FilePath}
use caddy_waf_ui.System.Calls.{read_file}
use caddy_waf_ui.Logs.Matches.{AuditEntry, matches}
use caddy_waf_ui.Logs.Entry.{
  Formats, Decoded, at_end, malformed, decoded, entry_from_line, parse_line,
}
use caddy_waf_ui.Logs.Paginate.{Page, paginate}
use caddy_waf_ui.Logs.Tail.{tail_window}

pub record Options : Type 0 where
  pub search : Bytes
  pub action : Bytes
  pub page : ℤ
  pub page_size : ℤ

-- What the reader logs with slog.Error, a line with its number.
pub data Complaint : Type 0 where
  bad_stream bad_entry : Complaint
  bad_line : ℕ → Complaint

-- What a loop over the records has found.
pub record Found : Type 0 where
  pub entries : List AuditEntry
  pub complaints : List Complaint

abbrev pub nothing_found : Found
nothing_found = record { entries = []; complaints = [] }

-- One record, before what the later ones give: logged if it is not an entry, kept if it matches.
unfoldable pub note_record : Options → Complaint → Option AuditEntry → Found → Found
note_record opts complaint none later = record later { complaints = complaint ∷ later.complaints }
note_record opts complaint (some entry) later =
    if matches entry opts.search opts.action
    then record later { entries = entry ∷ later.entries }
    else later

-- The loop over concatenated objects, on fuel for its calls of Decode.
unfoldable pub stream_entries : Formats → Options → ℕ → Bytes → Found
unfolding note_record
stream_entries formats opts zero input = nothing_found
stream_entries formats opts (suc fuel) input = elim (formats.decode input) [
  | at_end ↦ nothing_found
  | malformed ↦ record { entries = []; complaints = bad_stream ∷ [] }
  | decoded line rest ↦
      note_record opts bad_entry (entry_from_line formats line)
        (stream_entries formats opts fuel rest)
]

-- What ReadBytes('\n') gives call by call: the lines with their newlines, and the rest at the end.
unfoldable pub read_lines : Bytes → List Bytes
read_lines [] = [] ∷ []
read_lines (c ∷ cs) =
    let rest = read_lines cs in if c == 10 then (c ∷ []) ∷ rest else onto_first c rest

abbrev pub is_blank : Bytes → Bool
is_blank line = beq (trim_space line) []

-- The loop over the lines; `number` is that of the line before.
unfoldable pub line_entries : Formats → Options → ℕ → List Bytes → Found
unfolding note_record
line_entries formats opts number [] = nothing_found
line_entries formats opts number (line ∷ lines) =
    let later = line_entries formats opts (suc number) lines in
    if is_blank line
    then later
    else note_record opts (bad_line (suc number)) (parse_line formats line) later

-- One object after the other where there is no newline, else line by line.
unfoldable pub scan : Formats → Options → Bytes → Found
unfolding stream_entries line_entries read_lines
scan formats opts input =
    if not (any (λ c. c == 10) input) && not (is_blank input)
    then stream_entries formats opts (suc (length input)) input
    else line_entries formats opts 0 (read_lines input)

unfoldable pub page_of : Formats → Options → Bytes → Page AuditEntry × List Complaint
unfolding scan
page_of formats opts file =
    let found = scan formats opts (tail_window file) in
    (paginate (reverse found.entries) opts.page opts.page_size, found.complaints)

unfoldable pub read : Formats → Options → FilePath → Exec (Page AuditEntry × List Complaint)
unfolding page_of read_file
read formats opts path = do file ← read_file path; pure (page_of formats opts file)
