-- ===== src/Queue/Fifo.antt =====
-- What a bounded queue of pointers promises to its callers, oldest item first.
use mir_dev.Base.{ℕ, Bool, true, false, List, [], ◌∷◌, ◌++◌, length, ◌==◌, if◌then◌else◌}

abbrev pub push : ℕ → List ℕ → ℕ → List ℕ × Bool
push capacity items item =
    if length items == capacity then (items, false) else (items ++ (item ∷ []), true)

-- An empty queue leaves what `out` holds.
abbrev pub pop : List ℕ → ℕ → List ℕ × ℕ
pop [] out = ([], out)
pop (item ∷ items) out = (items, item)

-- What a client calls, and what it sees of a call.
pub data Call : Type 0 where
  pushes pops : ℕ → Call

pub data Reply : Type 0 where
  pushed : Bool → Reply
  popped : ℕ → Reply

unfoldable pub run : ℕ → List ℕ → List Call → List Reply
run capacity items [] = []
run capacity items (pushes item ∷ calls) =
    let (items', done) = push capacity items item in pushed done ∷ run capacity items' calls
run capacity items (pops out ∷ calls) =
    let (items', item) = pop items out in popped item ∷ run capacity items' calls
