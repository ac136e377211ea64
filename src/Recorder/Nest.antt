-- ===== src/Recorder/Nest.antt =====
-- src/mir_recorder.c: the nesting of states, and what is kept of a state that ends.
use mir_dev.Base.{
  if◌then◌else◌, lt→ltb, length, length-append, ℕ, ◌+◌, ◌<◌, ◌≡◌, refl, sym, ap, ap₂, ◌∙◌, Bool,
  true, false, some, List, [], ◌∷◌, ◌++◌, map, append-nil, append_assoc, arith,
}
use mir_dev.Recorder.{
  Recorder, StateRec, Event, Line, of_state, of_event, state_end, end_top, write_to_file, near_full,
  name_of, buffer_max_size, meta_data_max_size,
}
use mir_dev.Recorder.Time.{
  IsTimed, transition_lem, IsCall, IsRoomy, ends, some_top, state_dump-IsRoomy,
}

abbrev pub states_of : List Line → List StateRec
states_of [] = []
states_of (of_state s ∷ lines) = s ∷ states_of lines
states_of (of_event e ∷ lines) = states_of lines

-- The states that have ended, in that order
abbrev pub logged : Recorder → List StateRec
logged r = states_of r.file ++ r.state_buffer

states_of-append : (xs ys : List Line) → states_of (xs ++ ys) ≡ states_of xs ++ states_of ys
states_of-append [] ys = refl
states_of-append (of_state s ∷ xs) ys = ap (λ zs. s ∷ zs) (states_of-append xs ys)
states_of-append (of_event e ∷ xs) ys = states_of-append xs ys

no_states : (es : List Event) → states_of (map of_event es) ≡ []
no_states [] = refl
no_states (e ∷ es) = no_states es

all_states :
    (ss : List StateRec) (es : List Event) → states_of (map of_state ss ++ map of_event es) ≡ ss
all_states [] es = no_states es
all_states (s ∷ ss) es = ap (λ zs. s ∷ zs) (all_states ss es)

logged-write : (r : Recorder) → logged (write_to_file r) ≡ logged r
unfolding write_to_file
logged-write r =
    append-nil (states_of (r.file ++ (map of_state r.state_buffer ++ map of_event r.event_buffer)))
    ∙ states_of-append r.file (map of_state r.state_buffer ++ map of_event r.event_buffer)
    ∙ ap (λ zs. states_of r.file ++ zs) (all_states r.state_buffer r.event_buffer)

-- What a state's end leaves: `rest` is the stack below it.
pub record Ended (r r' : Recorder) (s : StateRec) (rest : List StateRec) (under : ℕ) : Type 0 where
  pub stack : r'.state_stack ≡ rest
  pub back_in : r'.this_state ≡ name_of rest under
  pub kept : logged r' ≡ logged r ++ (s ∷ [])
  pub roomy : IsRoomy r'

dumped :
    (full : Bool) (r : Recorder)
    → near_full (length r.state_buffer) ≡ full
    → length r.state_buffer < buffer_max_size
    → length r.event_buffer + 1 < buffer_max_size
    → (logged (if full then write_to_file r else r) ≡ logged r)
      × IsRoomy (if full then write_to_file r else r)
      × ((if full then write_to_file r else r).state_stack ≡ r.state_stack)
      × ((if full then write_to_file r else r).this_state ≡ r.this_state)
unfolding write_to_file
dumped true r e p q = (logged-write r, state_dump-IsRoomy true r e p q, refl, refl)
dumped false r e p q = (refl, state_dump-IsRoomy false r e p q, refl, refl)

end_top_kept :
    (start : ℕ) (r : Recorder) (s : StateRec) (rest : List StateRec) (meta_data : List ℕ)
    (under now end_time : ℕ)
    → r.state_stack ≡ s ∷ rest
    → IsTimed start r
    → IsCall r (ends meta_data under now end_time)
    → IsRoomy r
    → (r' : Recorder) × (end_top (s ∷ rest) r meta_data under now end_time ≡ some r')
      × Ended r r' (record s { end_time = end_time; meta_data = meta_data }) rest under
unfolding end_top
end_top_kept start r s rest meta_data under now end_time e v h room =
    let slot_free = lt→ltb (length r.state_buffer) buffer_max_size (omega (arith, room.states)) in
    let (m, f, t) = transition_lem start r (name_of rest under) now v h.1 h.2 in
    let short = lt→ltb (length meta_data) meta_data_max_size h.3 in
    let done : StateRec = record s { end_time = end_time; meta_data = meta_data } in
    let m' : Recorder = record m {
      state_stack = rest;
      state_buffer = m.state_buffer ++ (done ∷ []);
    } in
    let grown = length-append m.state_buffer (done ∷ []) ∙ ap (λ b. length b + 1) t.buffer_same in
    let (kept, roomy, stack, state) =
      dumped (near_full (length m'.state_buffer)) m' refl (omega (arith, grown, room.states))
        (omega (arith, ap (length {A = Event}) t.events_same, room.events)) in
    (
      (if near_full (length m'.state_buffer) then write_to_file m' else m'),
      rw (slot_free, f, short) refl,
      record {
        stack = stack;
        back_in = state ∙ t.to_state;
        kept =
            kept
            ∙ sym (append_assoc (states_of m.file) m.state_buffer (done ∷ []))
            ∙ ap₂ (λ file b. (states_of file ++ b) ++ (done ∷ [])) t.file_same t.buffer_same;
        roomy = roomy;
      },
    )

-- In a recorder whose times add up and whose buffers have room, `mir_recorder_state_end`, called as
-- for `call-IsTimed`, does not abort: the innermost state leaves the stack and is, with its end time
-- and metadata, the one state more that is kept, after the others, whether or not the buffers are
-- written to the file; the current state is that of the rest of the stack, or what stands below its
-- bottom; and the buffers have room again.
pub state_end_kept :
    (start : ℕ) (r : Recorder) (meta_data : List ℕ) (under now end_time : ℕ)
    → IsTimed start r
    → IsCall r (ends meta_data under now end_time)
    → IsRoomy r
    → (s : StateRec) × (rest : List StateRec) × (r.state_stack ≡ s ∷ rest)
      × (r' : Recorder) × (state_end r meta_data under now end_time ≡ some r')
      × Ended r r' (record s { end_time = end_time; meta_data = meta_data }) rest under
unfolding state_end
state_end_kept start r meta_data under now end_time v h room =
    let (s, rest, e) = some_top r.state_stack h.4 in
    let (r', f, w) = end_top_kept start r s rest meta_data under now end_time e v h room in
    (s, rest, e, r', ap (λ st. end_top st r meta_data under now end_time) e ∙ f, w)
