-- ===== src/Tests/Logs.antt =====
-- The reader of the audit log at concrete inputs.
use caddy_waf_ui.Prelude.{
  ℕ, ◌≡◌, ◌↔◌, sym, true, none, some, List, [], ◌∷◌, arith, pos, negsuc, length,
}
use caddy_waf_ui.Text.{Bytes, str}
use caddy_waf_ui.Logs.Classify.{classify, blocked, IsBlocked, classify_iff}
use caddy_waf_ui.Logs.Paginate.{paginate, page_count}
use caddy_waf_ui.Logs.Paginate.Partition.{
  first_pages, IsWellFormed, paginate-partition, paginate-IsWellFormed,
}
use caddy_waf_ui.Logs.Tail.{tail_of, IsWindow, tail_of-IsWindow}
use caddy_waf_ui.Logs.Matches.{AuditEntry, matches, HasAction, IsFound, matches_iff}
use caddy_waf_ui.Logs.Entry.{Formats, AuditLine, Decoded, at_end, decoded, entry_from_line}
use caddy_waf_ui.Logs.Entry.Texts.{Mapped, entry_from_line-Mapped}
use caddy_waf_ui.Logs.Reader.{Options, stream_entries, line_entries, read_lines}
use caddy_waf_ui.Logs.Reader.Complete.{
  Shrinks, Streamed, Complete, stream_entries-Streamed, line_entries-Complete,
}

abbrev entry : AuditEntry
entry = record {
  timestamp = str "2026-01-01T00:00:00Z";
  action = blocked;
  client = str "10.0.0.9";
  uri = str "/Admin";
  rule_id = str "942100";
  message = str "SQL injection";
}

abbrev line : AuditLine
line = record {
  transaction = record {
    timestamp = [];
    unix_timestamp = pos 7;
    id = str "tx1";
    client_ip = str "10.0.0.9";
    is_interrupted = true;
    action = [];
    request_uri = some (str "/");
  };
  messages =
      record { message = []; actionset = str "log"; data_id = some (negsuc 0) }
      ∷ (record { message = str "found"; actionset = str "deny, log"; data_id = some (pos 942100) }
          ∷ []);
}

abbrev three : List ℕ
three = 1 ∷ (2 ∷ (3 ∷ []))

-- A format in which every byte is a record of its own.
abbrev decode_byte : Bytes → Decoded
decode_byte [] = at_end
decode_byte (c ∷ cs) = decoded line cs

abbrev formats : Formats
formats = record {
  unmarshal = λ raw. some line;
  decode = decode_byte;
  apache_to_rfc = λ ts. none;
  unix_to_rfc = λ n. str "1970";
}

abbrev options : Options
options = record { search = str "FOUND"; action = str "blocked"; page = pos 1; page_size = pos 2 }

formats-Shrinks : Shrinks formats
formats-Shrinks [] line' rest h = absurd (cc)
formats-Shrinks (c ∷ cs) line' rest h = let same : cs ≡ rest = cc in rw (sym same) (omega arith)

classify_iff_example :
    (classify [] true (str "log, pass" ∷ (str "deny" ∷ [])) ≡ blocked)
    ↔ IsBlocked [] true (str "log, pass" ∷ (str "deny" ∷ []))
classify_iff_example = classify_iff [] true (str "log, pass" ∷ (str "deny" ∷ []))

paginate-partition_example : first_pages three 1 (page_count (length three) 2) ≡ three
paginate-partition_example = paginate-partition three 1

paginate-IsWellFormed_example : IsWellFormed three (paginate three (pos 9) (pos 2))
paginate-IsWellFormed_example = paginate-IsWellFormed three (pos 9) (pos 2)

tail_of-IsWindow_example :
    IsWindow 3 (1 ∷ (2 ∷ (10 ∷ (4 ∷ [])))) (tail_of 3 (1 ∷ (2 ∷ (10 ∷ (4 ∷ [])))))
tail_of-IsWindow_example = tail_of-IsWindow 3 (1 ∷ (2 ∷ (10 ∷ (4 ∷ []))))

matches_iff_example :
    (matches entry (str " sql ") (str "Blocked") ≡ true)
    ↔ (HasAction entry (str "Blocked") × IsFound entry (str " sql "))
matches_iff_example = matches_iff entry (str " sql ") (str "Blocked")

entry_from_line-Mapped_example : Mapped line (entry_from_line formats line)
entry_from_line-Mapped_example = entry_from_line-Mapped formats line

stream_entries-Streamed_example :
    Streamed formats options (str "ab") (stream_entries formats options 3 (str "ab"))
stream_entries-Streamed_example =
    stream_entries-Streamed formats options formats-Shrinks 3 (str "ab") (omega arith)

line_entries-Complete_example :
    Complete formats options
      (read_lines (str "ab"))
      (line_entries formats options 0 (read_lines (str "ab")))
line_entries-Complete_example = line_entries-Complete formats options 0 (read_lines (str "ab"))
