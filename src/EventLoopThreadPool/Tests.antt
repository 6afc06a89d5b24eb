-- ===== src/EventLoopThreadPool/Tests.antt =====
-- The theorems of EventLoopThreadPool at a pool with two threads.
use knet_lib.Common.{true, [], ◌∷◌}
use knet_lib.EventLoopThreadPool.{EventLoopThreadPool, new_pool}

abbrev two_threads : EventLoopThreadPool
two_threads = record (new_pool 1) { num_threads = 2; started = true; loops = 10 ∷ 11 ∷ [] }
