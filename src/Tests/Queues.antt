-- ===== src/Tests/Queues.antt =====
-- Queues by key (common/misc/hash_map_queue.h) on small inputs.
use graphite_atac.Prelude.{ℕ, List, [], ◌∷◌, ◌==◌, if◌then◌else◌, arith}
use graphite_atac.Queues.{HashMapQueue, find, enqueue}
use graphite_atac.Queues.Contents
use graphite_atac.Queues.Contents.{Holds, after_enqueue, Dequeued, Answers}

-- Two requests of address 64.
abbrev requests : HashMapQueue ℕ
requests = (64, 7 ∷ 8 ∷ []) ∷ []

abbrev contents : ℕ → List ℕ
contents key = if 64 == key then 7 ∷ 8 ∷ [] else []

requests-Holds : Holds requests contents
unfolding find
requests-Holds key = ground arith

enqueue-Holds_example : Holds (enqueue requests 128 9) (after_enqueue contents 128 9)
enqueue-Holds_example = Contents.enqueue-Holds requests contents 128 9 requests-Holds

dequeue-Holds_example : Dequeued 0 requests contents 64 (7 ∷ 8 ∷ [])
dequeue-Holds_example = Contents.dequeue-Holds 0 requests contents 64 requests-Holds
