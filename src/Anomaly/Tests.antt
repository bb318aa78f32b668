-- ===== src/Anomaly/Tests.antt =====
-- The comparison of two periods of two days each, over three cost records.
use cloudcause.Prelude.{
  ℕ, ◌≤◌, ◌≡◌, refl, String, Option, any, string_eq, ◌==◌, if◌then◌else◌, true, false, none, some,
  List, [], ◌∷◌, All, length, map, select, nat_eq,
}
use cloudcause.Prelude.Dict.{get, get_or}
use cloudcause.Prelude.Floats.{dec}
use cloudcause.Prelude.Micro.{Micro, pos, micro_ops}
use cloudcause.Contracts.Common.{aws, DateRange, dates}
use cloudcause.Contracts.Analytics.{AnalyticsConfig, resource}
use cloudcause.Contracts.Records.{usage, CostRecord}
use cloudcause.Anomaly.Daily.{
  daily_totals, daily_total, spent_from, on_day, billed_cost_of, effective_cost_of,
  daily_totals_lem,
}
use cloudcause.Anomaly.Aggregates.{Aggregate, new_aggregate, add}
use cloudcause.Anomaly.Compare.{
  candidate_key, of_provider, provider_aggregates, compare_provider, first_spike, spike_threshold,
}
use cloudcause.Anomaly.Grouping.{
  aggregate_of, add_all, belongs, cost_in, provider_aggregates-get, add_all-costs,
}
use cloudcause.Anomaly.Material.{Material, IsFirst, compare_provider-Material, first_spike-IsFirst}
use cloudcause.Contracts.Records.{AuditEvent}
use cloudcause.Anomaly.Actors.{resource_aliases, resource_text, index_events, matching_events}
use cloudcause.Anomaly.Allocation.{allocate_actor_costs}
use cloudcause.Anomaly.Join.{has_event, is_at, HasNoRepeat, matching_events_lem}
use cloudcause.Anomaly.Groups.{actor_key, actor_aggregates, scoped_allocation, actor_aggregates-get}

abbrev line : ℕ → ℕ → CostRecord Micro
line day cost = record {
  provider = aws;
  billing_account_id = "1";
  usage_date = day;
  service_name = "EC2";
  service_category = "Compute";
  charge_category = usage;
  charge_description = "";
  region_id = none;
  resource_id = some "i-1";
  resource_name = none;
  sku_id = none;
  usage_quantity = dec 1 0;
  usage_unit = "hours";
  billed_cost = dec cost 0;
  effective_cost = dec cost 0;
  currency = "USD";
  tags = [];
  commitment_discount_id = none;
  source_record_id = none;
}

abbrev lines : List (CostRecord Micro)
lines = line 1 10 ∷ line 3 10 ∷ line 4 90 ∷ []

abbrev before : DateRange
before = record { start = 1; end = 2 }

abbrev now : DateRange
now = record { start = 3; end = 4 }

abbrev config : AnalyticsConfig Micro
config = record {
  min_absolute_change = dec 5 0;
  min_percent_change = dec 10 0;
  reconciliation_tolerance = dec 5 2;
  max_candidates_per_provider = 2;
  currency = "USD";
}

daily_totals_lem_example :
    daily_totals lines now
    ≡ map
        (daily_total
          (λ day. spent_from billed_cost_of (dec 0 0) (on_day now day lines))
          (λ day. spent_from effective_cost_of (dec 0 0) (on_day now day lines)))
        (dates now)
daily_totals_lem_example = daily_totals_lem lines now

provider_aggregates-get_example :
    get "i-1" (provider_aggregates lines aws now before)
    ≡ aggregate_of candidate_key aws now before "i-1"
        (select (belongs candidate_key aws now before "i-1") (of_provider aws lines))
provider_aggregates-get_example = provider_aggregates-get lines aws now before "i-1"

abbrev fresh : Aggregate Micro
fresh = new_aggregate "i-1" resource aws

add_all-costs_example :
    ((add_all candidate_key aws now before fresh lines).current_cost
      ≡ cost_in now true fresh.current_cost lines)
    × ((add_all candidate_key aws now before fresh lines).baseline_cost
        ≡ cost_in now false fresh.baseline_cost lines)
add_all-costs_example = add_all-costs candidate_key aws now before fresh lines

compare_provider-Material_example :
    All (Material config) (compare_provider lines aws now before config).candidates
    × (length (compare_provider lines aws now before config).candidates ≤ 2)
compare_provider-Material_example = compare_provider-Material lines aws now before config

abbrev grown : Aggregate Micro
grown = add (line 4 90) true (add (line 3 10) true fresh)

first_spike-IsFirst_example :
    IsFirst
      (λ day. get_or day (dec 0 0) grown.current_daily)
      (spike_threshold (dec 10 0))
      (dates now)
      (first_spike grown now (dec 10 0))
first_spike-IsFirst_example = first_spike-IsFirst grown now (dec 10 0)

-- two principals on one instance, under the name of the bill and under its ARN
abbrev event : String → String → String → AuditEvent
event id who tokens = record {
  provider = aws;
  event_id = id;
  event_name = "RunInstances";
  event_time = 400;
  event_day = 4;
  event_date = 4;
  actor = some who;
  resource_ids = "i-1" ∷ "arn:aws:ec2:eu-west-1:1:instance/i-1" ∷ [];
  attributes = ("total_token_count", tokens) ∷ [];
}

abbrev events : List AuditEvent
events = event "a" "ann" "100" ∷ event "b" "bob" "50" ∷ []

abbrev read_number : String → Option Micro
read_number text =
    if text == "100" then some (dec 100 0) else if text == "50" then some (dec 50 0) else none

shared_cost :
    map
      (λ (r : CostRecord Micro). r.effective_cost)
      (allocate_actor_costs read_number (line 4 90 ∷ line 9 10 ∷ []) events).records
    ≡ pos 60_000_030 ∷ pos 29_999_970 ∷ dec 10 0 ∷ []
unfolding allocate_actor_costs
shared_cost = refl

matching_events_lem_example :
    HasNoRepeat (matching_events (index_events events []) (line 4 90))
    × ((id : String)
        → has_event id (matching_events (index_events events []) (line 4 90))
          ≡ any
              (λ alias. any (is_at id 4 alias) events)
              (resource_aliases (resource_text (line 4 90))))
matching_events_lem_example = matching_events_lem events (line 4 90)

actor_aggregates-get_example :
    get "ann" (actor_aggregates read_number lines events now before aws)
    ≡ aggregate_of actor_key aws now before "ann" (
        select
          (belongs actor_key aws now before "ann")
          (scoped_allocation read_number lines events now before aws).records)
actor_aggregates-get_example = actor_aggregates-get read_number lines events now before aws "ann"
