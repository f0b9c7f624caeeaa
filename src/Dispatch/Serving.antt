-- ===== src/Dispatch/Serving.antt =====
-- src/dispatch.c: the prefetch windows over the deliveries of a wake-up.
use beaver_mq.Message.{Message}
use beaver_mq.Queue.State.{Queue}
use beaver_mq.Dispatch.Window.{Fits, Fits}
