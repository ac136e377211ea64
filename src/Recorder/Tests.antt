-- ===== src/Recorder/Tests.antt =====
-- The recorder's theorems on a new recorder and in a state.
use mir_dev.Base.{◌>>=◌, ◌≡◌, refl, some, List, [], ◌∷◌, arith}
use mir_dev.Recorder.{Recorder, StateRec, state_begin, state_end, record_state_transition}
use mir_dev.Recorder.Time.{IsTimed, IsRoomy, begins, call, call-IsTimed}
use mir_dev.Recorder.Nest.{Ended, state_end_kept}

abbrev fresh : Recorder
fresh = record {
  num_states = 0;
  num_events = 0;
  id = 1;
  file = [];
  state_time = 0 ∷ 0 ∷ 0 ∷ 0 ∷ 0 ∷ 0 ∷ 0 ∷ 0 ∷ 0 ∷ 0 ∷ 0 ∷ 0 ∷ 0 ∷ [];
  this_state_trans_time = 100;
  prev_state = 0;
  this_state = 0;
  state_buffer = [];
  state_stack = [];
  event_buffer = [];
}

fresh-IsTimed : IsTimed 100 fresh
fresh-IsTimed = record { states = refl; adds_up = refl; in_state = omega arith; names = tt }

fresh-IsRoomy : IsRoomy fresh
fresh-IsRoomy = record { states = omega arith; events = omega arith }

abbrev inner : StateRec
inner = record { name = 4; begin_time = 121; end_time = 0; id = 2; parent_id = 1; meta_data = [] }

abbrev outer : StateRec
outer = record { name = 3; begin_time = 111; end_time = 0; id = 1; parent_id = 0; meta_data = [] }

-- Since 100: 10 cycles in state 0, 10 in state 3, and now in state 4
abbrev nested : Recorder
nested = record {
  num_states = 2;
  num_events = 0;
  id = 1;
  file = [];
  state_time = 10 ∷ 0 ∷ 0 ∷ 10 ∷ 0 ∷ 0 ∷ 0 ∷ 0 ∷ 0 ∷ 0 ∷ 0 ∷ 0 ∷ 0 ∷ [];
  this_state_trans_time = 120;
  prev_state = 3;
  this_state = 4;
  state_buffer = [];
  state_stack = inner ∷ outer ∷ [];
  event_buffer = [];
}

nests : (call fresh (begins 3 110 111) >>= λ r. call r (begins 4 120 121)) ≡ some nested
unfolding state_begin record_state_transition
nests = refl

nested-IsTimed : IsTimed 100 nested
nested-IsTimed = record {
  states = refl;
  adds_up = refl;
  in_state = omega arith;
  names = (omega arith, (omega arith, tt));
}

nested-IsRoomy : IsRoomy nested
nested-IsRoomy = record { states = omega arith; events = omega arith }

call-IsTimed_example :
    (r' : Recorder) × (call fresh (begins 3 110 111) ≡ some r') × IsTimed 100 r' × IsRoomy r'
call-IsTimed_example =
    call-IsTimed 100 fresh (begins 3 110 111) fresh-IsTimed fresh-IsRoomy
      (omega arith, omega arith, omega arith, omega arith)

state_end_kept_example :
    (s : StateRec) × (rest : List StateRec) × (nested.state_stack ≡ s ∷ rest)
    × (r' : Recorder) × (state_end nested (7 ∷ []) 0 150 151 ≡ some r')
    × Ended nested r' (record s { end_time = 151; meta_data = 7 ∷ [] }) rest 0
state_end_kept_example =
    state_end_kept 100 nested (7 ∷ []) 0 150 151 nested-IsTimed
      (omega arith, omega arith, omega arith, omega arith, omega arith) nested-IsRoomy
