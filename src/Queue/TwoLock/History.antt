-- ===== src/Queue/TwoLock/History.antt =====
-- The interleavings of one pushing and one popping thread, against histories of the FIFO.
use mir_dev.Base.{
  length, u32_mod, ℕ, ◌≤◌, ◌<◌, ◌≡◌, refl, sym, ap, ap₂, ◌∙◌, some, List, [], ◌∷◌, ◌++◌, append-nil,
  append_assoc, arith,
}
use mir_dev.Queue.{Queue, create}
use mir_dev.Queue.Window.{length-window}
use mir_dev.Queue.Inv.{IsValid, created-IsValid}
use mir_dev.Queue.TwoLock.{
  push_idle, pop_idle, State, Event, silent, refused, enqueued, found_empty, dequeued, Step,
  see_full, see_empty, shrink, move_out, see_room, write, move_in, grow, see_some, read, oldest,
  holds, Inv, Effect,
}
use mir_dev.Queue.TwoLock.Steps.{Step-Inv, Step-Effect}

-- The events of a run stand newest first.
pub data Run (s : State) : List Event → State → Type 0 where
  here : Run s [] s
  next : {es : List Event} {e : Event} {t u : State} → Run s es t → Step t e u → Run s (e ∷ es) u

-- What went in and what came out, each in its order
abbrev pub items_in : List Event → List ℕ
items_in [] = []
items_in (enqueued item ∷ es) = items_in es ++ (item ∷ [])
items_in (silent ∷ es) = items_in es
items_in (refused ∷ es) = items_in es
items_in (found_empty ∷ es) = items_in es
items_in (dequeued item ∷ es) = items_in es

abbrev pub items_out : List Event → List ℕ
items_out [] = []
items_out (dequeued item ∷ es) = items_out es ++ (item ∷ [])
items_out (silent ∷ es) = items_out es
items_out (refused ∷ es) = items_out es
items_out (found_empty ∷ es) = items_out es
items_out (enqueued item ∷ es) = items_out es

abbrev pub outside : Queue → State
outside q = record { queue = q; pusher = push_idle; popper = pop_idle }

outside-Inv : (q : Queue) → IsValid q → Inv (outside q)
outside-Inv q v = record {
  storage = v.storage;
  small = v.small;
  out_in = v.out_in;
  size_in = v.size_in;
  pushing = v.in_at;
  popping = tt;
}

pub Run-Inv : {s t : State} {es : List Event} → Run s es t → Inv s → Inv t
Run-Inv here v = v
Run-Inv (next r st) v = Step-Inv st (Run-Inv r v)

-- What an event adds to the account
account :
    (capacity : ℕ) (before ins outs items items' : List ℕ) (e : Event) (es : List Event)
    → ins ≡ items_in es
    → outs ≡ items_out es
    → before ++ ins ≡ outs ++ items
    → Effect capacity items e items'
    → before ++ items_in (e ∷ es) ≡ items_out (e ∷ es) ++ items'
account capacity before ins outs items items' silent es p q h f =
    ap (λ xs. before ++ xs) (sym p) ∙ (h ∙ ap₂ ◌++◌ q (sym f))
account capacity before ins outs items items' refused es p q h f =
    ap (λ xs. before ++ xs) (sym p) ∙ (h ∙ ap₂ ◌++◌ q (sym f.0))
account capacity before ins outs items items' found_empty es p q h f =
    ap (λ xs. before ++ xs) (sym p) ∙ (h ∙ ap₂ ◌++◌ q (sym f.0))
account capacity before ins outs items items' (enqueued item) es p q h f =
    ap (λ xs. before ++ (xs ++ (item ∷ []))) (sym p)
    ∙ (sym (append_assoc before ins (item ∷ []))
        ∙ (ap (λ xs. xs ++ (item ∷ [])) h
            ∙ (append_assoc outs items (item ∷ []) ∙ ap₂ ◌++◌ q (sym f.0))))
account capacity before ins outs items items' (dequeued item) es p q h f =
    ap (λ xs. before ++ xs) (sym p)
    ∙ (h ∙ (ap₂ ◌++◌ q f ∙ sym (append_assoc (items_out es) (item ∷ []) items')))

Run-account :
    {s t : State} {es : List Event}
    → Run s es t
    → Inv s
    → holds s ++ items_in es ≡ items_out es ++ holds t
Run-account {s} here v = append-nil (holds s)
Run-account {s} {es = e ∷ es} (next {t = t} {u = u} r st) v =
    account t.queue.capacity (holds s) (items_in es) (items_out es) (holds t) (holds u) e es refl
      refl (Run-account r v) (Step-Effect st (Run-Inv r v))

Step-capacity : {s t : State} {e : Event} → Step s e t → t.queue.capacity ≡ s.queue.capacity
Step-capacity (see_full q d full) = refl
Step-capacity (see_room q d item room) = refl
Step-capacity (write q d item) = refl
Step-capacity (move_in q d item) = refl
Step-capacity (grow q d item) = refl
Step-capacity (see_empty q e empty) = refl
Step-capacity (see_some q e full) = refl
Step-capacity (read q e) = refl
Step-capacity (shrink q e item) = refl
Step-capacity (move_out q e item) = refl

Run-capacity : {s t : State} {es : List Event} → Run s es t → t.queue.capacity ≡ s.queue.capacity
Run-capacity here = refl
Run-capacity (next r st) = Step-capacity st ∙ Run-capacity r

-- From `mir_queue_create` on, with a capacity that fits 32 bits, however the accesses of a pushing
-- thread and a popping thread fall between each other: the items pushed, in their order, are the
-- items popped, in their order, and then those that the queue holds. So no item is lost, doubled or
-- overtaken; and the queue never holds more than `capacity` items.
pub Run-fifo :
    (capacity : ℕ) (q : Queue) (es : List Event) (s : State)
    → create capacity ≡ some q
    → capacity < u32_mod
    → Run (outside q) es s
    → (items_in es ≡ items_out es ++ holds s) × (length (holds s) ≤ capacity)
Run-fifo capacity q es s e small r =
    let (v, c, none_yet) = created-IsValid capacity q e small in
    (
      ap (λ xs. xs ++ items_in es) (sym none_yet) ∙ Run-account r (outside-Inv q v),
      omega (
        arith,
        length-window s.queue.buffer s.queue.capacity (oldest s) s.queue.size,
        (Run-Inv r (outside-Inv q v)).size_in,
        Run-capacity r,
        c,
      ),
    )
