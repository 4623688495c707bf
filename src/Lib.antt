-- ===== src/Lib.antt =====
-- go-imagefy: finding images on the web that may be used, and that are real photographs.
--
-- The program asks search providers for candidates, sorts them by licence, and validates them in
-- goroutines: a probe of the address, a check of extra blocked domains, one download, a filter of
-- perceptual duplicates, an assessment of the licence (address, extra lists, metadata), a reverse
-- search, and a vision model. The reverse search and the vision model are optional.
--
-- Parts, with the files of the repository's root that they model:
-- - License: `license.go` (`CheckLicense`, `CheckLicenseWith`).
-- - Metadata, Metadata/Words, Metadata/Tags: `metadata.go`, `metadata_tags.go`, and `IsCCLicenseURL` of
--   `cclicense.go`. `containsWord` is a loop on fuel: each round drops a rune, so one more than the
--   length of the text is enough.
-- - Classes, Classify/Prompt: `classify_types.go` (the parsers of answers, the prompts).
-- - Candidate: `ImageCandidate` of `search.go`, `patterns.go`, `prefilter.go`.
-- - Assessment: `assessment.go` (`AssessLicense`).
-- - Dedup: `dedup.go` (`isDuplicate`). Base64: the encodings of `helpers.go`. Html: the rest of it,
--   `ExtractOGImageURL`, and `ExtractCCLicense` of `cclicense.go`.
-- - Config, Config/Environment: `imagefy.go`, and the code that the pipeline only calls.
-- - Download, Validate, Reverse, Classify: `download.go`, `validate.go`, `reverse.go`, `classify.go`.
-- - Pipeline: `validate_pipeline.go`, the stages of `validateOne`. Pipeline/Schedule: the goroutines of
--   `validateCandidates`, as a step relation on a machine with a loop, a semaphore and shared state.
-- - Search: `search.go`. Fallback: `orchestrator.go`. Query: `query.go`. Find: `find.go`, for every
--   provider of a page's images. Builtin: the providers that `search.go` and `find.go` make of a
--   configuration.
-- - Searxng, Openverse, Pexels, Ddg, Native, Og: the providers of `provider.go`, `openverse.go`,
--   `pexels.go`, `provider_ddg.go`, `provider_native.go` and `provider_og.go`. Web: the requests and
--   loops that several of them share.
-- - Content, ImageUrl, ImageTag: `provider_content.go`. The loops of `Search` become steps on its four
--   lists and the set of seen addresses (Content/Steps); Content/Origin says where an address comes from.
-- - Contract: what a search counts on in a provider, for each of them and for a fallback over them.
-- - Regexp: package `regexp`, as ordered matches of a pattern at a place of a text (Regexp/Syntax has the
--   notations of patterns, Regexp/Relation and Regexp/Leftmost say what a match and a leftmost match
--   are, Regexp/Language which texts a pattern takes). A search for all matches runs on the length of the text as fuel, which is enough as each match
--   takes a rune (Regexp/Enough). Paths: package `path`. Decimal: `%d` of package `fmt`, whose fuel is
--   one more than the number.
-- - Text, Platform, Http: what the program uses of the standard library. Prelude: shared names.
-- - Tests: concrete inputs.
--
-- Texts are lists of runes. Go's `int` is an integer without overflow where the program adds none up;
-- `parseIntFast`, which does, wraps at 64 bits. A call that reaches outside is a function that may
-- change a world; clients, decoders, hashes, floats, JSON, HTML entities, the case tables beyond ASCII
-- and the parser of addresses are parameters, and what is stated holds for every choice of them. A
-- goroutine's stage between two locks is one step, and the world may change
-- between any two steps, so every order of the goroutines' effects is a run.
--
-- Not modelled: panics and the recovery from them, logging, the elapse of time (a context is the list
-- of its timeouts), the texts of errors, bytes that are no UTF-8 in the middle of a page, the
-- pattern `contentImgRe`, which no code reads, and the vendored modules, whose image decoder, hashes and
-- search engines are parameters.
pub mod Prelude
pub mod Text
pub mod Platform
pub mod License
pub mod Metadata
pub mod Classes
pub mod Candidate
pub mod Assessment
pub mod Http
pub mod Dedup
pub mod Base64
pub mod Config
pub mod Download
pub mod Validate
pub mod Reverse
pub mod Classify
pub mod Pipeline
pub mod Search
pub mod Fallback
pub mod Decimal
pub mod Web
pub mod Searxng
pub mod Openverse
pub mod Pexels
pub mod Regexp
pub mod Html
pub mod Ddg
pub mod Native
pub mod Og
pub mod Paths
pub mod ImageUrl
pub mod ImageTag
pub mod Content
pub mod Builtin
pub mod Contract
pub mod Query
pub mod Find
pub mod Tests
