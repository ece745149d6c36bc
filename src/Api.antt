-- ===== src/Api.antt =====
-- tools/fastgoctl/pkg/parser/api: the tokens and the scanner of api files.
pub mod Token
pub mod Reader
pub mod Durations
pub mod Scanner
pub mod Comments
