-- ===== src/Queue/Tests.antt =====
-- Runs of the queue on small inputs, and its theorems at concrete queues.
use mir_dev.Base.{ℕ, ◌≤◌, ◌≡◌, refl, Bool, true, false, none, some, List, [], ◌∷◌, ◌++◌, arith}
use mir_dev.Queue.{Queue, create, push, pop}
use mir_dev.Queue.Fifo
use mir_dev.Queue.Fifo.{Call, pushes, pops, Reply, pushed, popped}
use mir_dev.Queue.Inv.{IsValid, contents}
use mir_dev.Queue.Refine.{push_refines, pop_refines, run, run-create}
use mir_dev.Queue.TwoLock.{
  push_idle, pop_idle, pop_some, silent, enqueued, see_room, write, move_in, grow, see_some,
}
use mir_dev.Queue.TwoLock.History.{Run, here, next, outside, items_in, items_out, Run-fifo}

abbrev fresh : Queue
fresh = record { buffer = 0 ∷ 0 ∷ []; capacity = 2; size = 0; in_pos = 0; out_pos = 0 }

-- 8, then 9, round the end of the buffer
abbrev wrapped : Queue
wrapped = record { buffer = 9 ∷ 7 ∷ 8 ∷ []; capacity = 3; size = 2; in_pos = 1; out_pos = 2 }

abbrev calls : List Call
calls = pushes 5 ∷ pushes 6 ∷ pushes 7 ∷ pops 1 ∷ pops 1 ∷ pops 1 ∷ []

create_two : create 2 ≡ some fresh
unfolding create
create_two = refl

run-fresh :
    run fresh calls
    ≡ some (pushed true ∷ pushed true ∷ pushed false ∷ popped 5 ∷ popped 6 ∷ popped 1 ∷ [])
unfolding run push pop
run-fresh = refl

-- A pop of a slot that holds NULL fails its assertion.
pop_null : pop (record fresh { size = 1 }) 0 ≡ none
unfolding pop
pop_null = refl

wrapped-IsValid : IsValid wrapped
wrapped-IsValid = omega arith

push_refines_example :
    (q' : Queue) × (done : Bool) × (push wrapped 4 ≡ some (q', done))
    × IsValid q'
    × (q'.capacity ≡ 3)
    × ((contents q', done) ≡ Fifo.push 3 (8 ∷ 9 ∷ []) 4)
push_refines_example = push_refines wrapped 4 wrapped-IsValid (omega arith)

pop_refines_example :
    (q' : Queue) × (item : ℕ) × (pop wrapped 1 ≡ some (q', item))
    × IsValid q'
    × (q'.capacity ≡ 3)
    × ((contents q', item) ≡ Fifo.pop (8 ∷ 9 ∷ []) 1)
pop_refines_example = pop_refines wrapped 1 wrapped-IsValid

run-create_example : (q : Queue) × (create 2 ≡ some q) × (run q calls ≡ some (Fifo.run 2 [] calls))
run-create_example = run-create 2 calls (omega arith) (omega arith) (omega arith)

-- A push of 7, with the first access of a pop before its last one
abbrev written : Queue
written = record fresh { buffer = 7 ∷ 0 ∷ []; in_pos = 1 }

abbrev one_item : Queue
one_item = record written { size = 1 }

overlapped :
    Run
      (outside fresh)
      (silent ∷ enqueued 7 ∷ silent ∷ silent ∷ silent ∷ [])
      (record { queue = one_item; pusher = push_idle; popper = pop_some })
overlapped =
    next
      (next
        (next (next (next here (see_room fresh pop_idle 7 (omega arith))) (write fresh pop_idle 7))
          (move_in (record fresh { buffer = 7 ∷ 0 ∷ [] }) pop_idle 7))
        (grow written pop_idle 7))
      (see_some one_item push_idle (omega arith))

Run-fifo_example :
    (items_in (silent ∷ enqueued 7 ∷ silent ∷ silent ∷ silent ∷ [])
      ≡ items_out (silent ∷ enqueued 7 ∷ silent ∷ silent ∷ silent ∷ []) ++ (7 ∷ []))
    × (1 ≤ 2)
Run-fifo_example =
    Run-fifo 2 fresh (silent ∷ enqueued 7 ∷ silent ∷ silent ∷ silent ∷ [])
      (record { queue = one_item; pusher = push_idle; popper = pop_some }) create_two (omega arith)
      overlapped
