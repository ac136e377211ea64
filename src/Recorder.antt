-- ===== src/Recorder.antt =====
-- src/mir_recorder.c and src/mir_recorder.h, in the build without hardware counters: the states a
-- worker goes through, nested, with the time spent in each. The cycle counter's answers, `now`, are
-- arguments. What goes to the file is a list of lines, the latest last; of a line, the text is left
-- out. The metadata that is copied is a string with its length checked.
pub mod Nest
pub mod Time
mod Tests
use mir_dev.Base.{
  ltb, leb, ◌==◌, if◌then◌else◌, ltb→lt, lt→ltb, leb→le, ==_iff, Bool-cases, Option-cases, ◌>>=◌,
  ◌>>◌, assert, length, get_or, set, replicate, length-append, length-replicate, length-set,
  get_or-set_self, get_or-set_ne, AllSet, AllSet-snoc, AllSet-init, AllSet-cons, All, u16_mod,
  u32_mod, u64_mod, add16, add32, sub32, add64, sub64, all_below, all_below_lem, count,
  count-append, nth, update, total, length-update, nth-lt, nth-bound, nth-set_self, set_same,
  nth-set_ne, total-set, total-update, le-total, All-nth, All-set, All-intro, ℕ, zero, suc, ◌+◌,
  ◌-◌, ◌*◌, ◌/◌, ◌%◌, ◌^◌, ◌≤◌, ◌<◌, min, max, ◌≡◌, refl, sym, ap, ap₂, subst, ◌∙◌, ◌≢◌, ◌↔◌, ◌⊎◌,
  inl, inr, Bool, true, false, not, ◌&&◌, ◌||◌, Option, none, some, List, [], ◌∷◌, ◌++◌, map,
  append-nil, append_assoc, arith, dec_lt, ℕ_discrete, mod-add-mod, mod-eq_of_lt, mod-eq-sub-mod,
  add-zero,
}

-- `struct mir_state_t`; `id` is a `uint16_t`.
pub record StateRec : Type 0 where
  pub name : ℕ
  pub begin_time : ℕ
  pub end_time : ℕ
  pub id : ℕ
  pub parent_id : ℕ
  pub meta_data : List ℕ

-- `struct mir_event_t`
pub record Event : Type 0 where
  pub event_time : ℕ
  pub id : ℕ
  pub meta_data : List ℕ

pub data Line : Type 0 where
  of_state : StateRec → Line
  of_event : Event → Line

-- `struct mir_recorder_t`. The state stack is a list, the innermost state first, and its head is the
-- list's length; so are the two buffers, the oldest first.
pub record Recorder : Type 0 where
  pub num_states : ℕ
  pub num_events : ℕ
  pub id : ℕ
  pub file : List Line
  pub state_time : List ℕ
  pub this_state_trans_time : ℕ
  pub prev_state : ℕ
  pub this_state : ℕ
  pub state_buffer : List StateRec
  pub state_stack : List StateRec
  pub event_buffer : List Event

-- `MIR_RECORDER_NUM_STATES`, `MIR_RECORDER_BUFFER_MAX_SIZE`, `MIR_RECORDER_STACK_MAX_SIZE` and the
-- two limits on metadata
abbrev pub recorder_num_states : ℕ
recorder_num_states = 13

abbrev pub buffer_max_size : ℕ
buffer_max_size = 262144

abbrev pub stack_max_size : ℕ
stack_max_size = buffer_max_size

abbrev pub meta_data_max_size : ℕ
meta_data_max_size = 64

unfoldable pub create : ℕ → ℕ → Recorder
create id now = record {
  num_states = 0;
  num_events = 0;
  id = id;
  file = [];
  state_time = replicate recorder_num_states 0;
  this_state_trans_time = now;
  prev_state = 0;
  this_state = 0;
  state_buffer = [];
  state_stack = [];
  event_buffer = [];
}

-- A state's number out of the array is a fault.
unfoldable pub record_state_transition : Recorder → ℕ → ℕ → Option Recorder
record_state_transition r next_state now = do
  _ ← nth r.state_time r.this_state
  some (record r {
    state_time =
        update r.state_time r.this_state (λ t. add64 t (sub64 now r.this_state_trans_time));
    prev_state = r.this_state;
    this_state = next_state;
    this_state_trans_time = now;
  })

-- The states, then the events, and the buffers are empty.
unfoldable pub write_to_file : Recorder → Recorder
write_to_file r = record r {
  file = r.file ++ (map of_state r.state_buffer ++ map of_event r.event_buffer);
  state_buffer = [];
  event_buffer = [];
}

abbrev pub parent_of : List StateRec → ℕ
parent_of [] = 0
parent_of (s ∷ stack) = s.id

-- The two instants are those of the transition and of the state's begin.
unfoldable pub state_begin : Recorder → ℕ → ℕ → ℕ → Option Recorder
state_begin r name now begin = do
  r' ← record_state_transition r name now
  let n = add64 r'.num_states 1
  let s : StateRec = record {
    name = name;
    begin_time = begin;
    end_time = 0;
    id = n % u16_mod;
    parent_id = parent_of r'.state_stack;
    meta_data = [];
  }
  assert (ltb (length (s ∷ r'.state_stack)) stack_max_size)
  some (record r' { num_states = n; state_stack = s ∷ r'.state_stack })

-- `(r->state_stack_head) - 1` may be below the array: `under` is the name that stands there then.
abbrev pub name_of : List StateRec → ℕ → ℕ
name_of [] under = under
name_of (s ∷ stack) under = s.name

abbrev pub near_full : ℕ → Bool
near_full head = head == buffer_max_size - 1

-- The call for a given stack, the innermost state first; a write out of the buffer is a fault.
unfoldable pub end_top : List StateRec → Recorder → List ℕ → ℕ → ℕ → ℕ → Option Recorder
end_top [] r meta_data under now end_time = none
end_top (ending_state ∷ stack) r meta_data under now end_time = do
  assert (ltb (length r.state_buffer) buffer_max_size)
  r' ← record_state_transition r (name_of stack under) now
  assert (ltb (length meta_data) meta_data_max_size)
  let s : StateRec = record ending_state { end_time = end_time; meta_data = meta_data }
  let r'' : Recorder = record r' { state_stack = stack; state_buffer = r'.state_buffer ++ (s ∷ []) }
  some (if near_full (length r''.state_buffer) then write_to_file r'' else r'')

unfoldable pub state_end : Recorder → List ℕ → ℕ → ℕ → ℕ → Option Recorder
state_end r = end_top r.state_stack r

unfoldable pub event : Recorder → List ℕ → ℕ → Option Recorder
event r meta_data now = do
  assert (ltb (length r.event_buffer) buffer_max_size)
  assert (ltb (length meta_data) meta_data_max_size)
  let n = add64 r.num_events 1
  let e : Event = record { event_time = now; id = n % u16_mod; meta_data = meta_data }
  let r' : Recorder = record r { num_events = n; event_buffer = r.event_buffer ++ (e ∷ []) }
  some (if near_full (length r'.event_buffer) then write_to_file r' else r')
