-- ===== src/Tests.antt =====
-- Runs of the code, and the theorems at concrete inputs.
mod Bench
mod AdbRuns
mod RebootRuns
mod ConfigRuns
mod SerialRuns
mod FastbootRuns
mod SshRuns
mod CopyRuns
mod ThreadRuns
mod LoggerRuns
mod FactoryRuns
