-- ===== src/Server/Shutdown.antt =====
-- handle_shutdown of src/server.c.
use lprog_hw.Rope.{Rope}
use lprog_hw.Utilities.Text.{Text}
use lprog_hw.Buffer.State.{Buffer}
use lprog_hw.Buffer.Document.{Document}
use lprog_hw.Server.State.{Server}
