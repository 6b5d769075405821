-- ===== src/Gate/Captured.antt =====
-- From `open` to `check`: for whom the command is decided.
use sudowhat.Gate.Host.{Host}
