-- ===== src/Output/Buffer.antt =====
-- The buffer and its operations: prism_serve/gateway/output.py. A call runs with the condition of its
-- stream free, so it is one step; `still_current` answers for both of its tests.
use prism_serve.Base.{
  ℕ, ◌+◌, String, Bool, true, false, not, ◌&&◌, ◌||◌, Option, none, some, List, [], ◌∷◌, ◌++◌, ltb,
  leb, if◌then◌else◌, is_some, ◌==◌, nat_key, text_key, pair_key, length, take, drop, filter,
  value_error, runtime_error, Result, ok, err, Action, ◌>>=◌,
}
use prism_serve.Base.Dict.{Dict, lookup, insert, erase}
use prism_serve.Tracker.State.{decoding, finished, same_state, RequestInfo}

-- `all(identity)` over the four texts
unfoldable pub output_query_identity : RequestInfo → Option (String × String × String × String)
output_query_identity r =
    if same_state r.state decoding || same_state r.state finished
    then (if r.decode_instance == ""
          || r.decode_instance_epoch == ""
          || r.req_id == ""
          || r.active_operation_id == ""
        then none
        else some (r.decode_instance, r.decode_instance_epoch, r.req_id, r.active_operation_id))
    else none

pub record OutputState : Type 0 where
  pub token_ids : List ℕ
  pub terminal : Bool
  pub error : Option String

-- `resource_free_terminal` is the OrderedDict's keys, oldest first.
pub record OutputBuffer : Type 0 where
  pub active_operation_cap : ℕ
  pub terminal_snapshot_cap : ℕ
  pub states : Dict String OutputState
  pub resource_free_terminal : List String

unfoldable pub init : ℕ → ℕ → Result OutputBuffer
init active_cap terminal_cap =
    if active_cap == 0 || terminal_cap == 0
    then err (value_error "output buffer caps must be positive")
    else ok (record {
      active_operation_cap = active_cap;
      terminal_snapshot_cap = terminal_cap;
      states = [];
      resource_free_terminal = [];
    })

abbrev pub empty_state : OutputState
empty_state = record { token_ids = []; terminal = false; error = none }

unfoldable pub put_state : String → OutputState → OutputBuffer → OutputBuffer
put_state req_id o b = record b { states = insert req_id o b.states }

-- `len(states) - len(free) >= cap`
unfoldable pub is_full : OutputBuffer → Bool
is_full b = leb (b.active_operation_cap + length b.resource_free_terminal) (length b.states)

unfoldable pub ensure : String → Action OutputBuffer OutputState
ensure req_id b = elim (lookup req_id b.states) [
  | some existing ↦ (ok existing, b)
  | none ↦
      if is_full b
      then (err (runtime_error "active output state capacity exhausted"), b)
      else (ok empty_state, put_state req_id empty_state b)
]

-- The loop that evicts the oldest streams beyond the cap.
unfoldable pub evict :
    ℕ → List String → Dict String OutputState → List String × Dict String OutputState
evict cap [] states = ([], states)
evict cap (expired ∷ free) states =
    let rest = evict cap free (erase expired states) in
    if ltb cap (length (expired ∷ free)) then rest else (expired ∷ free, states)

-- `d[k] = None; d.move_to_end(k)`
unfoldable pub move_to_end : String → List String → List String
move_to_end req_id free = filter (λ k. not (k == req_id)) free ++ req_id ∷ []

unfoldable pub free_stream : String → OutputBuffer → OutputBuffer
free_stream req_id b =
    let e = evict b.terminal_snapshot_cap (move_to_end req_id b.resource_free_terminal) b.states in
    record b { resource_free_terminal = e.0; states = e.1 }

unfoldable pub mark_resource_free : String → Action OutputBuffer (Unit {0})
mark_resource_free req_id b = elim (lookup req_id b.states) [
  | none ↦ (ok tt, b)
  | some o ↦
      if not o.terminal && not (is_some o.error)
      then (err (value_error "active output state cannot be evicted"), b)
      else (ok tt, free_stream req_id b)
]

-- `==` of two lists of tokens
unfoldable pub same_tokens : List ℕ → List ℕ → Bool
same_tokens [] [] = true
same_tokens [] (y ∷ ys) = false
same_tokens (x ∷ xs) [] = false
same_tokens (x ∷ xs) (y ∷ ys) = x == y && same_tokens xs ys

-- `x or y` of two optional texts
unfoldable pub or_else : Option String → Option String → Option String
or_else none y = y
or_else (some x) y = if x == "" then y else some x

-- What a query returned: the tokens so far, their number, and how the stream ended.
pub record Cumulative : Type 0 where
  pub token_ids : List ℕ
  pub output_seq_no : ℕ
  pub terminal : Bool
  pub error : Option String

unfoldable pub extended : Cumulative → OutputState → OutputState
extended c o = record {
  token_ids = c.token_ids;
  terminal = o.terminal || c.terminal;
  error = or_else c.error o.error;
}

-- `output_seq_no > len(state.token_ids) or terminal != state.terminal`
unfoldable pub is_changed : Cumulative → OutputState → Bool
is_changed c o =
    ltb (length o.token_ids) c.output_seq_no || (if c.terminal then not o.terminal else o.terminal)

-- What `apply_cumulative` does under the lock.
unfoldable pub commit : String → Cumulative → OutputState → Action OutputBuffer Bool
commit req_id c o b =
    if ltb c.output_seq_no (length o.token_ids)
    then (ok false, b)
    else if not (same_tokens (take (length o.token_ids) c.token_ids) o.token_ids)
    then (err (value_error "cumulative output changed committed prefix"), b)
    else (ok (is_changed c o), put_state req_id (extended c o) b)

unfoldable pub commit_counted : String → Cumulative → OutputState → Action OutputBuffer Bool
commit_counted req_id c o b =
    if not (c.output_seq_no == length c.token_ids)
    then (err (value_error "output_seq_no must equal cumulative token count"), b)
    else commit req_id c o b

unfoldable pub apply_cumulative : String → Cumulative → Bool → Action OutputBuffer Bool
apply_cumulative req_id c still_current b =
    if not still_current
    then (err (value_error "output query request changed"), b)
    else (ensure req_id >>= λ o. commit_counted req_id c o) b

-- `wait_next` returns once this holds
unfoldable pub has_next : ℕ → OutputState → Bool
has_next cursor o = ltb cursor (length o.token_ids) || o.terminal || is_some (or_else o.error none)

-- `wait_next`, of a stream that has something new: what follows the cursor.
abbrev pub wait_next : ℕ → OutputState → List ℕ × Bool × Option String
wait_next cursor o = (drop cursor o.token_ids, o.terminal, o.error)

unfoldable pub fail : String → String → Action OutputBuffer (Unit {0})
fail req_id error = ensure req_id >>= λ o b.
    (ok tt, put_state req_id (record o { terminal = true; error = or_else o.error (some error) }) b)

-- A reply of an instance, with the identity that it names.
pub record Reply : Type 0 where
  pub req_id : String
  pub instance_epoch : String
  pub operation_id : String
  pub output : Cumulative

unfoldable pub repair_output_gap :
    String → String → String → Reply → Bool → Action OutputBuffer Bool
repair_output_gap instance_epoch req_id operation_id reply still_current b =
    if not (reply.req_id == req_id)
      || not (reply.instance_epoch == instance_epoch)
      || not (reply.operation_id == operation_id)
    then (err (value_error "output query identity changed"), b)
    else apply_cumulative req_id reply.output still_current b
