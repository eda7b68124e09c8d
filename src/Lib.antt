-- ===== src/Lib.antt =====
-- A verification library for Caddy WAF UI, the Go program that manages the configuration of a web
-- application firewall: it validates requests, writes overlay files that Caddy imports, keeps
-- snapshots of them, reloads Caddy, and puts the previous overlay back when the reload fails.
--
-- The parts of the program and their modules. Paths are from the repository's root.
--   Text                 Go strings as lists of bytes, and what the program calls of package strings
--   Errors, System       the errors with their wrapping, the disk, the calls of package os, the audit
--                        trail; System.Frame, System.Stable and System.Ends are rules for steps: what one leaves
--                        alone, and what holds when it returns and when it fails
--   Config               internal/config/config.go
--   Domain.Model         internal/domain/model.go
--   Domain.Slug          internal/domain/slug.go (DomainSlug)
--   Domain.Overlay       internal/domain/overlay.go (Header), Domain.Header its ParseHeader
--   Domain.Scanner       internal/domain/scanner.go (Scan), with parseSiteHeader in Domain.Header
--   Files.Naming         internal/files/naming.go and the name pattern of backup.go
--   Files.Writer         internal/files/writer.go (AtomicWrite)
--   Files.Backup         internal/files/backup.go (Backup, enforceRetention, RestoreBackup), Files.Listing
--                        its ListBackups
--   Logs.Trail           LogAction and parseLevel of internal/logs/logger.go
--   Logs.Reader          Read of internal/logs/reader.go, with Tail (tailWindow), Entry (entryFromLine),
--                        Classify, Matches and Paginate
--   Ratelimit            Bucket and ClientLimiter of internal/ratelimit/ratelimit.go
--   Web.Http, Web.Auth   requests and answers, RequestLogger of internal/logs/request.go, internal/auth
--   Web.Url, Web.Reply   what the handlers call of packages net/url and net/http
--   Web.Limits           the middlewares Login and API of internal/ratelimit/ratelimit.go
--   Web.Stack            buildHandler of cmd/server/main.go, SecurityHeaders of internal/ui/static.go
--   Waf.Mode             internal/waf/mode.go (GenerateSnippet)
--   Waf.Exclusions       internal/waf/exclusions.go
--   IpRules              internal/iprules/rules.go
--   Caddy                internal/caddy/admin.go (Reload)
--   Service.Validate     internal/service/validate.go (ValidateDomain)
--   Service.Chain        runChain of internal/service/chain.go
--   Service.Updates      its entries UpdateWAFMode, UpdateExclusions and Rollback;
--   Service.IpUpdates    UpdateIPRules
--   Service.Updates.Register  sequences of calls against the specification of a register
--   Ui.Overlay           internal/ui/overlay.go, with its patterns over Text.Pattern
--   Ui.Api, Ui.Router    internal/ui/api.go and internal/ui/router.go
--   Ui.Forms             internal/ui/forms.go
--   Ui.Pages             internal/ui/pages.go: Counts (countOverlays), Data (buildPageData), Serve (the
--                        handlers and the muxes)
--   Ui.Program           buildHandler with the muxes of internal/ui, and StaticHandler of static.go
--
-- How the model is built. A function with effects is an `Exec`: it takes a `World` (disk, outcomes of
-- the coming system calls, audit trail) and gives a result and the world that it leaves. Each call
-- of package os takes the next outcome of a list: it works, or it fails, and a failing write leaves
-- any number of bytes behind. A statement about all worlds therefore covers every pattern of
-- failures. When the list is used up, calls work. What a request reads from outside (environment,
-- time, random part of a temporary name) is the `Context`.
--   A path is a directory and a name. Directories come cleaned, as package filepath leaves them, and
-- exist as far as files lie in them; the disk holds regular files only.
--   The audit trail has the events that LogAction passes to package slog, at the level info; a log whose
-- level is set above it leaves them out.
--   The reload of Caddy is the interface `Reloader` of Service.Chain: a step that may succeed or fail
-- and leaves the disk and the trail alone. Caddy.Verified fills it; what Caddy answers, url.Parse and
-- the regexp of the site blocks are the parameter `Admin`.
--   The chain holds one process-wide lock from its first to its last step, so that a run of it is a
-- single step for every other run; the model has no other interleavings. Requests that only read are
-- not serialised by that lock.
--   ToLower, TrimSpace and EqualFold of package strings are modelled on their ASCII paths; a byte above 127 is
-- left as it is. Valid domains are ASCII. The time is taken as formatted text.
--   Recursion takes fuel in two places: the printing of decimals, whose fuel is above the number
-- itself, and the loop over concatenated JSON objects, whose fuel is above the length of the input.
--   Where the program only passes an error on, its text is shortened. The audit log is opened and read
-- in one step, and does not change meanwhile.
--   The token buckets count in exact units, 60 * 10 ^ 9 to a token, instead of floating point, and one
-- call reads the clock once. What the program takes from outside its own code is a parameter: packages
-- encoding/json and time on the audit log (`Formats` of Logs.Entry), time on headers (`Clock` of
-- Domain.Header), encoding/json on requests and answers with the texts of errors (`Codec` of Ui.Api),
-- HMAC (`Mac` of Web.Auth), package net (`Net` of IpRules), html/template on the embedded templates
-- (`Templates` of Ui.Pages.Serve), the server of the embedded files, and the read-back of
-- Caddy that the pages show. Ui.Program has all of them as one record.
--   Web.Stack takes the muxes as handlers over any state; Ui.Program gives it those of internal/ui over
-- the `World`. Request paths come cleaned and unescaped. An answer has no HTML link as the body of a
-- redirection. Where several cookies of one name come, the first counts.
--
-- Not modelled: the text of the HTML templates, the start of the server and its time limits, the embedded
-- assets, the warnings that handlers leave in the log of the process, and what lies outside the
-- repository: Caddy, Coraza and the operating system.
mod Prelude
pub mod Text
pub mod Errors
pub mod Domain
pub mod System
pub mod Config
pub mod Files
pub mod Logs
pub mod Waf
pub mod IpRules
pub mod Caddy
pub mod Ratelimit
pub mod Web
pub mod Service
pub mod Ui
mod Tests
