-- ===== src/Cli.antt =====
-- The command line: internal/cli. Cli.Http has the requests as effects, Cli.Client the functions of
-- client.go, Cli.Scan the command of scan.go and Cli.Sarif the report of sarif.go.
pub mod Http
pub mod Client
pub mod Scan
pub mod Sarif
