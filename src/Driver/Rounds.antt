-- ===== src/Driver/Rounds.antt =====
-- When the planner starts a round.
use metering.Prelude.{
  ◌+◌, ◌≤◌, ◌<◌, ◌≡◌, refl, arith, eq_iff, Bool, true, false, Option, none, some, List, [], ◌∷◌,
  ◌++◌, String, str_eq, inl, inr, Bool-cases, Option-cases,
}
use metering.Runtime.{ok, >>=-eq-ok}
use metering.Population.Types.{Resources, RunBody, head_id}
use metering.Population.Evidence.{within}
use metering.Population.Aggregate.{add_resources}
use text.Mathlib.TextPositions.{eq_refl}
use metering.Driver.Types.{
  Context, start_round, stop, final_evidence_sealed, controller_timeout_seconds, Pending,
}
use metering.Driver.Costs.{total_cost, exceeds}
use metering.Driver.Planner.{
  plan, plan_pending, action_of, resumed, stop_status, stop_status_at, limit_status,
  resource_limit_status, final_phase_started, state_reaches_development_goal,
}

-- What holds of a context in which a round may start.
pub record CanStart {F : Type 0} (context : Context F) : Type 0 where
  pub idle : context.pending ≡ none
  pub searching : final_phase_started context.population ≡ false
  pub unmoved : head_id context.population ≡ ok context.last_population_head
  pub goal_open : state_reaches_development_goal context.config context.population ≡ false
  pub parent : str_eq context.expected_parent_id "" ≡ false
  pub rounds : context.round_count < context.config.limits.max_rounds
  pub proposals : context.proposal_calls < context.config.limits.max_proposal_calls
  pub cost :
      exceeds
        (total_cost context.population.runs context.config.experiment_id)
        context.config.experiment.budget
        context.config.limits.max_total_candidate_cost
      ≡ false
  pub wall :
      context.reserved_wall_seconds
        + controller_timeout_seconds context.config
        + context.config.evidence_timeout
      ≤ context.config.limits.max_wall_seconds

-- No cost is above the other's.
abbrev AtMost : Resources → Resources → Type 0
AtMost a b =
    (a.actions ≤ b.actions)
    × (a.energy_millijoules ≤ b.energy_millijoules)
    × (a.gpu_milliseconds ≤ b.gpu_milliseconds)
    × (a.memory_bytes ≤ b.memory_bytes)
    × (a.storage_bytes ≤ b.storage_bytes)
    × (a.tokens ≤ b.tokens)
    × (a.wall_milliseconds ≤ b.wall_milliseconds)

within-AtMost : (a b : Resources) → within a b ≡ true → AtMost a b
unfolding within
within-AtMost a b h = ground arith

AtMost-within : (a b : Resources) → AtMost a b → within a b ≡ true
unfolding within
AtMost-within a b h = ground arith

-- Twice a cost.
abbrev double : Resources → Resources
unfolding add_resources
double a = add_resources a a

exceeds-AtMost :
    (used budget maximum : Resources)
    → exceeds used budget maximum ≡ false
    → AtMost (add_resources used (double budget)) maximum
unfolding exceeds add_resources
exceeds-AtMost used budget maximum h = ground arith

fits :
    (total used a b budget maximum : Resources)
    → AtMost total (add_resources used (add_resources a b))
    → AtMost a budget
    → AtMost b budget
    → AtMost (add_resources used (double budget)) maximum
    → AtMost total maximum
unfolding add_resources
fits total used a b budget maximum t f g m = (
  omega (arith, t.0, f.0, g.0, m.0),
  omega (arith, t.1, f.1, g.1, m.1),
  omega (arith, t.2, f.2, g.2, m.2),
  omega (arith, t.3, f.3, g.3, m.3),
  omega (arith, t.4, f.4, g.4, m.4),
  omega (arith, t.5, f.5, g.5, m.5),
  omega (arith, t.6, f.6, g.6, m.6),
)

module _ {F : Type 0} where
  stop_status_at-none :
      (context : Context F) (head : String)
      → stop_status_at context head ≡ none
      → head_id context.population ≡ ok head
      → context.pending ≡ none
      → final_phase_started context.population ≡ false
      → CanStart context
  unfolding stop_status_at limit_status resource_limit_status
  stop_status_at-none context head s at idle searching = record {
    idle = idle;
    searching = searching;
    unmoved = ground (arith, eq_iff head context.last_population_head);
    goal_open = ground arith;
    parent = ground arith;
    rounds = ground arith;
    proposals = ground arith;
    cost = ground arith;
    wall = ground arith;
  }

  plan_pending-start_round :
      (context : Context F) (allow_controller : Bool) (pending : Option Pending)
      → plan_pending context pending allow_controller ≡ ok start_round
      → (pending ≡ none)
        × (final_phase_started context.population ≡ false)
        × (head : String) × (head_id context.population ≡ ok head)
        × (stop_status_at context head ≡ none)
  unfolding plan_pending action_of resumed stop_status
  plan_pending-start_round context allow_controller (some pending) h = ground arith
  plan_pending-start_round context allow_controller none h =
      let (status, stopped, e) = >>=-eq-ok (stop_status context) _ h in
      let same : status ≡ none = ground arith in
      elim (Bool-cases (final_phase_started context.population)) [
        | inl final ↦ ground (arith, final, stopped, same)
        | inr searching ↦
            let (head, at, found) =
              >>=-eq-ok (head_id context.population) (λ name. ok (stop_status_at context name))
                {result = status} (ground (arith, searching, stopped)) in
            (refl, searching, head, at, ground (arith, found, same))
      ]

  -- The planner starts a round only in an idle context whose final phase has not started, whose population
  -- head is the one that the last round left, whose development goal is open, that has a parent, and that
  -- is below the limits on rounds, proposal calls, candidate cost (for two more runs) and wall time.
  pub plan-start_round :
      (context : Context F) (allow_controller : Bool)
      → plan context allow_controller ≡ ok start_round
      → CanStart context
  unfolding plan
  plan-start_round context allow_controller h =
      let (idle, searching, head, at, open_status) =
        plan_pending-start_round context allow_controller context.pending h in
      stop_status_at-none context head open_status at idle searching

  -- Conversely, in every such context it starts one.
  pub plan-CanStart :
      (context : Context F) (allow_controller : Bool)
      → CanStart context
      → plan context allow_controller ≡ ok start_round
  unfolding plan plan_pending action_of stop_status stop_status_at limit_status
      resource_limit_status
  plan-CanStart context allow_controller c = ground (
    arith,
    c.idle,
    c.searching,
    c.unmoved,
    c.goal_open,
    c.parent,
    c.rounds,
    c.proposals,
    c.cost,
    c.wall,
    eq_refl context.last_population_head,
  )

  total_cost-append :
      (runs : List (RunBody F)) (first second : RunBody F) (experiment_id : String)
      → AtMost (total_cost (runs ++ first ∷ second ∷ []) experiment_id) (
          add_resources
            (total_cost runs experiment_id)
            (add_resources first.evidence.cost second.evidence.cost))
  unfolding total_cost add_resources
  total_cost-append [] first second experiment_id = ground arith
  total_cost-append (run ∷ runs) first second experiment_id =
      ground (arith, total_cost-append runs first second experiment_id)

  -- A round that the planner starts keeps the total candidate cost within its limit: with any two further
  -- runs whose costs are within the experiment's budget, the total of the experiment's runs is within the
  -- maximum, in each resource.
  pub round_within_limit :
      (context : Context F) (allow_controller : Bool) (first second : RunBody F)
      → plan context allow_controller ≡ ok start_round
      → within first.evidence.cost context.config.experiment.budget ≡ true
      → within second.evidence.cost context.config.experiment.budget ≡ true
      → within
          (total_cost (context.population.runs ++ first ∷ second ∷ []) context.config.experiment_id)
          context.config.limits.max_total_candidate_cost
        ≡ true
  round_within_limit context allow_controller first second h a b =
      let c = plan-start_round context allow_controller h in
      let runs = context.population.runs in
      let budget = context.config.experiment.budget in
      let maximum = context.config.limits.max_total_candidate_cost in
      let used = total_cost runs context.config.experiment_id in
      AtMost-within _ maximum (
        fits _ used first.evidence.cost second.evidence.cost budget maximum
          (total_cost-append runs first second context.config.experiment_id)
          (within-AtMost _ budget a) (within-AtMost _ budget b)
          (exceeds-AtMost used budget maximum c.cost))

  pub plan-final_phase_started :
      (context : Context F) (allow_controller : Bool)
      → final_phase_started context.population ≡ true
      → plan context allow_controller ≡ ok (stop final_evidence_sealed)
  unfolding plan plan_pending action_of stop_status
  plan-final_phase_started context allow_controller h = elim (Option-cases context.pending) [
    | inl idle ↦ ground (arith, idle)
    | inr (pending, waiting) ↦ ground (arith, waiting)
  ]
