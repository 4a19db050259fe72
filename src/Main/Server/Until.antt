-- ===== src/Main/Server/Until.antt =====
-- How long the process runs, and how it ends, by the signals and the returns of the server.
use vpub_exporter.Config.{Config}
