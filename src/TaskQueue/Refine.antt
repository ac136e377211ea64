-- ===== src/TaskQueue/Refine.antt =====
-- src/mir_task_queue.c against src/mir_queue.c.
use mir_dev.Base.{set, ℕ, ◌≡◌, refl, ◌≢◌, Bool, some}
use mir_dev.Queue as Q
use mir_dev.Queue.Inv.{IsValid, contents}
use mir_dev.Queue.Fifo
use mir_dev.Queue.Refine.{push_refines, pop_refines}
use mir_dev.TaskQueue.{TaskQueue, create, push, pop}

pub create-same : (capacity : ℕ) → create capacity ≡ Q.create capacity
unfolding create Q.create
create-same capacity = refl

pub push-same : (q : TaskQueue) (task : ℕ) → push q task ≡ Q.push q task
unfolding push Q.push
push-same q task = refl

pub pop-same : (q : TaskQueue) → pop q ≡ Q.pop q 0
unfolding pop Q.pop
pop-same q = refl

pub push_task :
    (q : TaskQueue) (task : ℕ)
    → IsValid q
    → task ≢ 0
    → (q' : TaskQueue) × (done : Bool) × (push q task ≡ some (q', done))
      × IsValid q'
      × (q'.capacity ≡ q.capacity)
      × ((contents q', done) ≡ Fifo.push q.capacity (contents q) task)
push_task q task v set = rw (push-same q task) (push_refines q task v set)

pub pop_task :
    (q : TaskQueue)
    → IsValid q
    → (q' : TaskQueue) × (task : ℕ) × (pop q ≡ some (q', task))
      × IsValid q'
      × (q'.capacity ≡ q.capacity)
      × ((contents q', task) ≡ Fifo.pop (contents q) 0)
pop_task q v = rw (pop-same q) (pop_refines q 0 v)
