-- ===== src/Driver/Planner.antt =====
-- apps/population_driver/planner.py and stopping.py: the development goal, the reasons to stop, and the
-- next action. `state.head_id` is asked for where the code asks for it.
use metering.Prelude.{
  ℕ, ◌+◌, Bool, true, false, ◌&&◌, ◌||◌, not, Option, none, some, [], ◌∷◌, any, leb, ltb,
  if◌then◌else◌, ◌==◌, String, str_eq,
}
use metering.Runtime.{Result, ok, ◌>>=◌}
use metering.Runtime.Dict.{Dict, find}
use metering.Population.Types.{Archive, Metric, Experiment, PopulationState, head_id}
use metering.Population.State.{is_final}
use metering.Driver.Types.{
  Context, DriverConfig, Stopping, Stage, controller_pending, controller_complete,
  evidence_complete, Pending, Status, final_evidence_sealed, development_goal_reached, round_limit,
  population_state_advanced, empty_archive, proposal_call_limit, candidate_cost_limit,
  wall_reservation_limit, Action, advance_pending, start_round, stop, controller_timeout_seconds,
}
use metering.Driver.Costs.{total_cost, exceeds}

unfoldable pub has_final_experiment : Dict Experiment → Bool
has_final_experiment [] = false
has_final_experiment ((experiment_id, experiment) ∷ rest) =
    is_final experiment.role || has_final_experiment rest

-- `stage in {"controller_pending", "controller_complete"}`
unfoldable pub is_controller_stage : Stage → Bool
is_controller_stage controller_pending = true
is_controller_stage controller_complete = true
is_controller_stage evidence_complete = false

unfoldable pub resumed : Pending → Bool → String → Action
resumed pending allow_controller head =
    if str_eq head pending.population_start_record_id
    then advance_pending allow_controller
    else stop population_state_advanced

unfoldable pub action_of : Option Status → Action
action_of none = start_round
action_of (some status) = stop status

module _ {F : Type 0} where
  -- A member that passes every public case in enough replicates.
  unfoldable pub passes_every_case : ℕ → Metric F → Bool
  passes_every_case minimum_replicates member =
      member.survival_passed
      && leb minimum_replicates member.replicate_count
      && ltb 0 member.case_count
      && member.passed_count == member.case_count

  unfoldable pub archive_reaches_development_goal : Option Stopping → Archive F → Bool
  unfolding passes_every_case
  archive_reaches_development_goal none archive = false
  archive_reaches_development_goal (some policy) archive =
      any (passes_every_case policy.minimum_replicates) archive.members

  found_archive_reaches : Option Stopping → Option (Archive F) → Bool
  found_archive_reaches policy none = false
  found_archive_reaches policy (some archive) = archive_reaches_development_goal policy archive

  -- The latest archive of the experiment, if there is one.
  latest_archive : Option String → PopulationState F → Option (Archive F)
  latest_archive none state = none
  latest_archive (some archive_id) state = find archive_id state.archives

  unfoldable pub state_reaches_development_goal : DriverConfig → PopulationState F → Bool
  unfolding found_archive_reaches latest_archive
  state_reaches_development_goal config state =
      found_archive_reaches config.stopping
        (latest_archive (find config.experiment_id state.latest_archive_by_experiment) state)

  unfoldable pub resource_limit_status : Context F → Option Status
  resource_limit_status context =
      let used = total_cost context.population.runs context.config.experiment_id in
      if exceeds used context.config.experiment.budget
        context.config.limits.max_total_candidate_cost
      then some candidate_cost_limit
      else none

  unfoldable pub final_phase_started : PopulationState F → Bool
  unfolding has_final_experiment
  final_phase_started state =
      state.final_evaluation_started || has_final_experiment state.experiments

  -- The checks of `stop_status` after those that read the head.
  unfoldable pub limit_status : Context F → Option Status
  unfolding resource_limit_status
  limit_status context =
      let limits = context.config.limits in
      if str_eq context.expected_parent_id ""
      then some empty_archive
      else if leb limits.max_proposal_calls context.proposal_calls
      then some proposal_call_limit
      else elim (resource_limit_status context) [
        | some status ↦ some status
        | none ↦
            if ltb limits.max_wall_seconds (
              context.reserved_wall_seconds
              + controller_timeout_seconds context.config
              + context.config.evidence_timeout)
            then some wall_reservation_limit
            else none
      ]

  -- `stop_status`, with `state.head_id` given
  unfoldable pub stop_status_at : Context F → String → Option Status
  unfolding limit_status
  stop_status_at context head =
      let at_last_head = str_eq head context.last_population_head in
      if at_last_head && state_reaches_development_goal context.config context.population
      then some development_goal_reached
      else if leb context.config.limits.max_rounds context.round_count
      then some round_limit
      else if not at_last_head
      then some population_state_advanced
      else limit_status context

  unfoldable pub stop_status : Context F → Result (Option Status)
  unfolding stop_status_at
  stop_status context =
      if final_phase_started context.population
      then ok (some final_evidence_sealed)
      else do head ← head_id context.population; ok (stop_status_at context head)

  pending_action : Context F → Pending → Bool → Result Action
  unfolding is_controller_stage resumed
  pending_action context pending allow_controller =
      if final_phase_started context.population
      then ok (stop final_evidence_sealed)
      else if is_controller_stage pending.stage
      then head_id context.population >>= (λ head. ok (resumed pending allow_controller head))
      else ok (advance_pending allow_controller)

  unfoldable pub plan_pending : Context F → Option Pending → Bool → Result Action
  unfolding pending_action action_of
  plan_pending context (some pending) allow_controller =
      pending_action context pending allow_controller
  plan_pending context none allow_controller = do
    status ← stop_status context
    ok (action_of status)

  unfoldable pub plan : Context F → Bool → Result Action
  unfolding plan_pending
  plan context allow_controller = plan_pending context context.pending allow_controller
