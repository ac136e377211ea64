-- ===== src/Recorder/Time.antt =====
-- src/mir_recorder.c: the times of the states, against the time since the recorder's creation.
use mir_dev.Base.{
  if◌then◌else◌, lt→ltb, length, length-append, All, u16_mod, u64_mod, add64, sub64, update, total,
  length-update, nth-lt, total-update, le-total, ℕ, ◌+◌, ◌-◌, ◌%◌, ◌≤◌, ◌<◌, ◌≡◌, refl, ap, subst,
  ◌∙◌, Bool, true, false, Option, some, List, [], ◌∷◌, ◌++◌, arith,
}
use mir_dev.Recorder.{
  Recorder, StateRec, create, record_state_transition, state_begin, state_end, end_top, event,
  Event, write_to_file, recorder_num_states, near_full, name_of, parent_of, stack_max_size,
  meta_data_max_size, buffer_max_size,
}

abbrev pub sum : List ℕ → ℕ
sum = total (λ t. t)

-- `start` is the instant of the creation. Every name on the stack is that of a state.
pub record IsTimed (start : ℕ) (r : Recorder) : Type 0 where
  pub states : length r.state_time ≡ recorder_num_states
  pub adds_up : sum r.state_time + start ≡ r.this_state_trans_time
  pub in_state : r.this_state < recorder_num_states
  pub names : All (λ (s : StateRec). s.name < recorder_num_states) r.state_stack

-- There is room for a state and an event in the buffers.
pub record IsRoomy (r : Recorder) : Type 0 where
  pub states : length r.state_buffer + 1 < buffer_max_size
  pub events : length r.event_buffer + 1 < buffer_max_size

-- What a transition leaves
pub record Passed (r r' : Recorder) (next_state now : ℕ) : Type 0 where
  pub at : r'.this_state_trans_time ≡ now
  pub to_state : r'.this_state ≡ next_state
  pub stack_same : r'.state_stack ≡ r.state_stack
  pub buffer_same : r'.state_buffer ≡ r.state_buffer
  pub events_same : r'.event_buffer ≡ r.event_buffer
  pub file_same : r'.file ≡ r.file
  pub count_same : r'.num_states ≡ r.num_states
  pub length_same : length r'.state_time ≡ length r.state_time
  pub adds : sum r'.state_time ≡ sum r.state_time + (now - r.this_state_trans_time)

pub transition_lem :
    (start : ℕ) (r : Recorder) (next_state now : ℕ)
    → IsTimed start r
    → r.this_state_trans_time ≤ now
    → now < u64_mod
    → (r' : Recorder) × (record_state_transition r next_state now ≡ some r')
      × Passed r r' next_state now
unfolding record_state_transition
transition_lem start r next_state now v p q =
    let (t, e) = nth-lt r.state_time r.this_state (omega (arith, v.states, v.in_state)) in
    let few = le-total (λ t. t) r.state_time r.this_state t e in
    let g : ℕ → ℕ = λ t. add64 t (sub64 now r.this_state_trans_time) in
    let more = total-update (λ t. t) r.state_time r.this_state t g e in
    (
      record r {
        state_time = update r.state_time r.this_state g;
        prev_state = r.this_state;
        this_state = next_state;
        this_state_trans_time = now;
      },
      rw e refl,
      record {
        at = refl;
        to_state = refl;
        stack_same = refl;
        buffer_same = refl;
        events_same = refl;
        file_same = refl;
        count_same = refl;
        length_same = length-update r.state_time r.this_state g;
        adds = omega (arith, v.adds_up);
      },
    )

Passed-IsTimed :
    (start : ℕ) (r r' : Recorder) (next_state now : ℕ)
    → IsTimed start r
    → r.this_state_trans_time ≤ now
    → next_state < recorder_num_states
    → Passed r r' next_state now
    → IsTimed start r'
Passed-IsTimed start r r' next_state now v p q t = record {
  states = t.length_same ∙ v.states;
  adds_up = omega (arith, t.adds, t.at, v.adds_up);
  in_state = omega (arith, t.to_state);
  names = rw t.stack_same v.names;
}

-- The calls of a worker on its recorder, with the instants it reads
pub data Op : Type 0 where
  begins : ℕ → ℕ → ℕ → Op
  ends : List ℕ → ℕ → ℕ → ℕ → Op
  notes : List ℕ → ℕ → Op

abbrev pub call : Recorder → Op → Option Recorder
call r (begins name now begin) = state_begin r name now begin
call r (ends meta_data under now end_time) = state_end r meta_data under now end_time
call r (notes meta_data now) = event r meta_data now

-- The call's states are states, its instant is a word and not before the last transition, and there
-- is room for a state that begins, and a state to end.
abbrev pub IsCall : Recorder → Op → Type 0
IsCall r (begins name now begin) =
    (name < recorder_num_states)
    × (r.this_state_trans_time ≤ now)
    × (now < u64_mod)
    × (length r.state_stack + 1 < stack_max_size)
IsCall r (ends meta_data under now end_time) =
    (under < recorder_num_states)
    × (r.this_state_trans_time ≤ now)
    × (now < u64_mod)
    × (length meta_data < meta_data_max_size)
    × (0 < length r.state_stack)
IsCall r (notes meta_data now) = length meta_data < meta_data_max_size

Passed-IsRoomy :
    (r r' : Recorder) (next_state now : ℕ) → IsRoomy r → Passed r r' next_state now → IsRoomy r'
Passed-IsRoomy r r' next_state now roomy t = record {
  states = omega (arith, ap (length {A = StateRec}) t.buffer_same, roomy.states);
  events = omega (arith, ap (length {A = Event}) t.events_same, roomy.events);
}

begin-IsTimed :
    (start : ℕ) (r : Recorder) (name now begin : ℕ)
    → IsTimed start r
    → IsRoomy r
    → IsCall r (begins name now begin)
    → (r' : Recorder) × (state_begin r name now begin ≡ some r') × IsTimed start r' × IsRoomy r'
unfolding state_begin
begin-IsTimed start r name now begin v roomy h =
    let (m, f, t) = transition_lem start r name now v h.1 h.2 in
    let w = Passed-IsTimed start r m name now v h.1 h.0 t in
    let left = Passed-IsRoomy r m name now roomy t in
    let s : StateRec = record {
      name = name;
      begin_time = begin;
      end_time = 0;
      id = add64 m.num_states 1 % u16_mod;
      parent_id = parent_of m.state_stack;
      meta_data = [];
    } in
    let room =
      lt→ltb (length (s ∷ m.state_stack)) stack_max_size
        (omega (arith, h.3, ap (length {A = StateRec}) t.stack_same)) in
    (
      record m { num_states = add64 m.num_states 1; state_stack = s ∷ m.state_stack },
      rw (f, room) refl,
      record {
        states = w.states;
        adds_up = w.adds_up;
        in_state = w.in_state;
        names = (h.0, w.names);
      },
      record { states = left.states; events = left.events },
    )

dump-IsTimed :
    (start : ℕ) (full : Bool) (r : Recorder)
    → IsTimed start r
    → IsTimed start (if full then write_to_file r else r)
unfolding write_to_file
dump-IsTimed start true r v = record {
  states = v.states;
  adds_up = v.adds_up;
  in_state = v.in_state;
  names = v.names;
}
dump-IsTimed start false r v = v

-- After an addition to a buffer with room, and the dump if it is near full, there is room again.
pub state_dump-IsRoomy :
    (full : Bool) (r : Recorder)
    → near_full (length r.state_buffer) ≡ full
    → length r.state_buffer < buffer_max_size
    → length r.event_buffer + 1 < buffer_max_size
    → IsRoomy (if full then write_to_file r else r)
unfolding write_to_file
state_dump-IsRoomy true r e p q = record { states = omega arith; events = omega arith }
state_dump-IsRoomy false r e p q = record { states = ground arith; events = q }

event_dump-IsRoomy :
    (full : Bool) (r : Recorder)
    → near_full (length r.event_buffer) ≡ full
    → length r.event_buffer < buffer_max_size
    → length r.state_buffer + 1 < buffer_max_size
    → IsRoomy (if full then write_to_file r else r)
unfolding write_to_file
event_dump-IsRoomy true r e p q = record { states = omega arith; events = omega arith }
event_dump-IsRoomy false r e p q = record { states = q; events = ground arith }

name_of-lt :
    (stack : List StateRec) (under : ℕ)
    → under < recorder_num_states
    → All (λ (s : StateRec). s.name < recorder_num_states) stack
    → name_of stack under < recorder_num_states
name_of-lt [] under p h = p
name_of-lt (s ∷ stack) under p h = h.0

end_top-IsTimed :
    (start : ℕ) (r : Recorder) (s : StateRec) (stack : List StateRec) (meta_data : List ℕ)
    (under now end_time : ℕ)
    → r.state_stack ≡ s ∷ stack
    → IsTimed start r
    → IsRoomy r
    → IsCall r (ends meta_data under now end_time)
    → (r' : Recorder) × (end_top (s ∷ stack) r meta_data under now end_time ≡ some r')
      × IsTimed start r'
      × IsRoomy r'
unfolding end_top
end_top-IsTimed start r s stack meta_data under now end_time e v roomy h =
    let slot_free = lt→ltb (length r.state_buffer) buffer_max_size (omega (arith, roomy.states)) in
    let names = subst (All (λ (s : StateRec). s.name < recorder_num_states)) e v.names in
    let next = name_of-lt stack under h.0 names.1 in
    let (m, f, t) = transition_lem start r (name_of stack under) now v h.1 h.2 in
    let w = Passed-IsTimed start r m (name_of stack under) now v h.1 next t in
    let short = lt→ltb (length meta_data) meta_data_max_size h.3 in
    let m' : Recorder = record m {
      state_stack = stack;
      state_buffer =
          m.state_buffer ++ (record s { end_time = end_time; meta_data = meta_data } ∷ []);
    } in
    let room = Passed-IsRoomy r m (name_of stack under) now roomy t in
    let grown =
      length-append m.state_buffer (record s { end_time = end_time; meta_data = meta_data } ∷ []) in
    (
      (if near_full (length m'.state_buffer) then write_to_file m' else m'),
      rw (slot_free, f, short) refl,
      dump-IsTimed start (near_full (length m'.state_buffer)) m' (record {
        states = w.states;
        adds_up = w.adds_up;
        in_state = w.in_state;
        names = names.1;
      }),
      state_dump-IsRoomy (near_full (length m'.state_buffer)) m' refl
          (omega (arith, grown, room.states)) room.events,
    )

pub some_top :
    (stack : List StateRec)
    → 0 < length stack
    → (s : StateRec) × (rest : List StateRec) × (stack ≡ s ∷ rest)
some_top [] p = absurd (omega arith)
some_top (s ∷ rest) p = (s, rest, refl)

end-IsTimed :
    (start : ℕ) (r : Recorder) (meta_data : List ℕ) (under now end_time : ℕ)
    → IsTimed start r
    → IsRoomy r
    → IsCall r (ends meta_data under now end_time)
    → (r' : Recorder) × (state_end r meta_data under now end_time ≡ some r')
      × IsTimed start r'
      × IsRoomy r'
unfolding state_end
end-IsTimed start r meta_data under now end_time v roomy h =
    let (s, stack, e) = some_top r.state_stack h.4 in
    let (r', f, w, left) =
      end_top-IsTimed start r s stack meta_data under now end_time e v roomy h in
    (r', ap (λ st. end_top st r meta_data under now end_time) e ∙ f, w, left)

event-IsTimed :
    (start : ℕ) (r : Recorder) (meta_data : List ℕ) (now : ℕ)
    → IsTimed start r
    → IsRoomy r
    → IsCall r (notes meta_data now)
    → (r' : Recorder) × (event r meta_data now ≡ some r') × IsTimed start r' × IsRoomy r'
unfolding event
event-IsTimed start r meta_data now v roomy h =
    let slot_free = lt→ltb (length r.event_buffer) buffer_max_size (omega (arith, roomy.events)) in
    let short = lt→ltb (length meta_data) meta_data_max_size h in
    let n = add64 r.num_events 1 in
    let e : Event = record { event_time = now; id = n % u16_mod; meta_data = meta_data } in
    let m : Recorder = record r { num_events = n; event_buffer = r.event_buffer ++ (e ∷ []) } in
    let grown = length-append r.event_buffer (e ∷ []) in
    (
      (if near_full (length m.event_buffer) then write_to_file m else m),
      rw (slot_free, short) refl,
      dump-IsTimed start (near_full (length m.event_buffer)) m (record {
        states = v.states;
        adds_up = v.adds_up;
        in_state = v.in_state;
        names = v.names;
      }),
      event_dump-IsRoomy (near_full (length m.event_buffer)) m refl
          (omega (arith, grown, roomy.events)) roomy.states,
    )

-- A new recorder's times add up: none is spent yet.
pub create-IsTimed : (id now : ℕ) → IsTimed now (create id now)
unfolding create
create-IsTimed id now = record {
  states = refl;
  adds_up = omega arith;
  in_state = omega arith;
  names = tt;
}

-- A recorder in which the times of the states add up to the time from its creation to the last
-- transition, in which the current state and those on the stack are states, and which has room for a
-- state and an event in its buffers, does not abort on `mir_recorder_state_begin`,
-- `mir_recorder_state_end` and `mir_recorder_event`, and is left so by each. The names given are
-- states, the instants are words in order, the metadata is short, a state begins only with room on
-- the stack and ends only if one is there; the name below the bottom of the stack, which is read when
-- the last state ends, is taken to be a state.
pub call-IsTimed :
    (start : ℕ) (r : Recorder) (op : Op)
    → IsTimed start r
    → IsRoomy r
    → IsCall r op
    → (r' : Recorder) × (call r op ≡ some r') × IsTimed start r' × IsRoomy r'
call-IsTimed start r (begins name now begin) v roomy h =
    begin-IsTimed start r name now begin v roomy h
call-IsTimed start r (ends meta_data under now end_time) v roomy h =
    end-IsTimed start r meta_data under now end_time v roomy h
call-IsTimed start r (notes meta_data now) v roomy h = event-IsTimed start r meta_data now v roomy h
