-- ===== src/CliRuntime.antt =====
-- internal/cliruntimeservice/cliruntime: the builds of the images of command-line tools.
pub mod DnsLabel
