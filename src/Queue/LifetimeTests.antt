-- ===== src/Queue/LifetimeTests.antt =====
-- Runs of a queue's waiters.
use beaver_mq.Prelude.{◌≡◌, refl, [], ◌∷◌}
use beaver_mq.Queue.State.{Queue, reject_publish}
use beaver_mq.Queue.Lifetime.{queue_remove_waiter}
use beaver_mq.Queue.Tests.{two_queue}

abbrev awaited : Queue
awaited = record (two_queue reject_publish) { waiters = (7, 1) ∷ (7, 2) ∷ []; cap_waiters = 4 }

-- The last one takes the place of the first.
removed : (queue_remove_waiter awaited 7 1).waiters ≡ (7, 2) ∷ []
unfolding queue_remove_waiter
removed = refl
