-- ===== src/Server/Starting.antt =====
-- The child of fork in get_worker of src/server.c, up to its loop.
use lprog_hw.Rope.{Rope}
use lprog_hw.Utilities.Text.{Text}
use lprog_hw.Buffer.State.{Buffer}
use lprog_hw.Buffer.Returns.{Returns}
use lprog_hw.Server.State.{Server}
