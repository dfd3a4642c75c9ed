-- ===== src/Output/Tests.antt =====
-- Runs of the output buffer, and instances of its theorems.
use prism_serve.Base.{
  ◌≤◌, String, ◌≡◌, refl, true, false, none, some, [], ◌∷◌, ◌==◌, nat_key, text_key, pair_key,
  length, any,
}
use prism_serve.Base.Dict.{lookup}
use prism_serve.Output.Buffer.{
  OutputState, OutputBuffer, Cumulative, apply_cumulative, mark_resource_free,
}
use prism_serve.Output.Extends.{Grows, apply_cumulative-Grows}
use prism_serve.Output.Eviction.{mark_resource_free-bound}

abbrev done : OutputState
done = record { token_ids = 5 ∷ []; terminal = true; error = none }

abbrev buffer : OutputBuffer
buffer = record {
  active_operation_cap = 2;
  terminal_snapshot_cap = 1;
  states = ("a", done) ∷ ("b", done) ∷ [];
  resource_free_terminal = "a" ∷ [];
}

abbrev reply : Cumulative
reply = record { token_ids = 5 ∷ 6 ∷ []; output_seq_no = 2; terminal = false; error = none }

apply_cumulative-Grows_example : Grows buffer (apply_cumulative "b" reply true buffer).1
apply_cumulative-Grows_example = apply_cumulative-Grows "b" reply true buffer

b_there : lookup "b" buffer.states ≡ some done
unfolding lookup
b_there = refl

mark_resource_free-bound_example :
    let b' = (mark_resource_free "b" buffer).1 in
    (length b'.resource_free_terminal ≤ 1)
    × ((k : String)
        → any (λ j. k == j) buffer.resource_free_terminal ≡ false
        → (k == "b") ≡ false
        → lookup k b'.states ≡ lookup k buffer.states)
mark_resource_free-bound_example = mark_resource_free-bound "b" buffer done b_there refl
