-- ===== src/Configuration/Defaults.antt =====
-- src/configuration.rs: what the fields of the configuration are where the file does not have them.
use vestirust.Prelude.{ℕ, Bool, false, String}

abbrev pub debug_mode : Bool
debug_mode = false

abbrev pub http_port : ℕ
http_port = 8080

abbrev pub auto_tls : Bool
auto_tls = false

abbrev pub hostname : String
hostname = "vestibule.io"
