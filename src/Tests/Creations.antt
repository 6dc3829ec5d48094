-- ===== src/Tests/Creations.antt =====
-- A run of Phase 3 that is created on an empty disk.
use hermes_agentic_variation.Base.{String, true, List, [], ◌∷◌, ◌≡◌, refl, ap, hex_digits, is_blank}
use hermes_agentic_variation.Base.Float.{
  lt_float, exact, to_float, le_float, add, rounded, round_units,
}
use hermes_agentic_variation.Base.Result.{Result, ok, err, is_ok}
use hermes_agentic_variation.Base.Same.{same}
use hermes_agentic_variation.Base.Value.{str}
use hermes_agentic_variation.Contracts.Checks.{
  require_text, require_digest, require_text_tuple, require_positive, finite_nonneg, texts,
}
use hermes_agentic_variation.Contracts.Freeze.{freeze_value, primitive_mapping, insert_sorted}
use hermes_agentic_variation.Contracts.RunSpec
use hermes_agentic_variation.Contracts.RunSpec.Stored.{
  spec_from_json, tuple_item, spec_of_kwargs, argument, identity,
}
use hermes_agentic_variation.Phase3.Creates.{Ready, create-Ready}
use hermes_agentic_variation.Phase3.Methods.{World, Created, create}
use hermes_agentic_variation.StateMachine
use hermes_agentic_variation.StateMachine.{is_allowed, is_terminal, is_spent, apply_transition}
use hermes_agentic_variation.Storage.Reads.{load_run, loaded}
use hermes_agentic_variation.Storage.State.{state_document, state_from_json}
use hermes_agentic_variation.Storage.Tables.{initial, find_run}
use hermes_agentic_variation.Tests.Disk.{disk, empty_disk}
use hermes_agentic_variation.Tests.Mutations.{controller}
use hermes_agentic_variation.Tests.States.{start}

abbrev token : String
token = "0123456789abcdef"

unfoldable ended : Result Created × World disk
unfolding create
ended = create disk controller token (str "Improve.") (str "approved") (initial, empty_disk)

abbrev made_of : Result Created → Created
made_of (ok made) = made
made_of (err e) = record { state = start; repository_path = ""; baseline_tree_hash = "" }

unfoldable made : Created
unfolding ended
made = made_of ended.0

succeeds : is_ok ended.0 ≡ true
unfolding create ended StateMachine.new hex_digits is_blank identity RunSpec.new require_text
    require_digest require_text_tuple texts require_positive finite_nonneg to_float exact lt_float
    le_float add rounded round_units freeze_value insert_sorted state_document state_from_json
    tuple_item spec_of_kwargs argument same apply_transition is_allowed is_terminal is_spent
    find_run spec_from_json RunSpec.require_comparison RunSpec.require_network_policy
    RunSpec.freeze_config primitive_mapping load_run loaded
    hermes_agentic_variation.Contracts.Freeze.freeze_mapping
    hermes_agentic_variation.Base.hex_between
succeeds = refl

answered : (r : Result Created) → is_ok r ≡ true → r ≡ ok (made_of r)
answered (ok x) h = refl
answered (err e) h = cc

creates :
    create disk controller token (str "Improve.") (str "approved") (initial, empty_disk)
    ≡ (ok made, ended.1)
unfolding ended made
creates = ap (λ r. (r, ended.1)) (answered ended.0 succeeds)

create-Ready_example :
    Ready disk controller token (str "Improve.") (str "approved") (initial, empty_disk) made ended.1
create-Ready_example =
    create-Ready disk controller token (str "Improve.") (str "approved") (initial, empty_disk) made
      ended.1 creates
