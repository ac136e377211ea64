-- ===== src/Stack/Tests.antt =====
-- The stack's theorems at concrete stacks.
use mir_dev.Base.{ℕ, ◌≡◌, refl, Bool, false, some, [], ◌∷◌, arith}
use mir_dev.Stack.{Stack, push, pop}
use mir_dev.Stack.Refine.{
  IsValid, contents, spec_push, spec_pop, push_refines_stack, pop_refines_stack,
}

abbrev two : Stack
two = record { buffer = 7 ∷ 8 ∷ 0 ∷ []; capacity = 3; head = 2 }

two-IsValid : IsValid two
two-IsValid = omega arith

fills_up :
    push (record { buffer = 7 ∷ []; capacity = 1; head = 1 }) 9
    ≡ some (record { buffer = 7 ∷ []; capacity = 1; head = 1 }, false)
unfolding push
fills_up = refl

push_refines_stack_example :
    (s' : Stack) × (done : Bool) × (push two 4 ≡ some (s', done))
    × IsValid s'
    × ((contents s', done) ≡ spec_push 3 (8 ∷ 7 ∷ []) 4)
push_refines_stack_example = push_refines_stack two 4 two-IsValid (omega arith)

pop_refines_stack_example :
    (s' : Stack) × (item : ℕ) × (pop two 1 ≡ some (s', item))
    × IsValid s'
    × ((contents s', item) ≡ spec_pop (8 ∷ 7 ∷ []) 1)
pop_refines_stack_example = pop_refines_stack two 1 two-IsValid
