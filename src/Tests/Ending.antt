-- ===== src/Tests/Ending.antt =====
-- The seasons service and the finalizer of events on tables held in memory.
use paya_dev.Base.{◌≡◌, true, false, none, some, [], ◌∷◌, arith}
use paya_dev.Entities.{User}
use paya_dev.Table.{count}
use paya_dev.Table.Memory.{memory}
use paya_dev.Seasons.{Season, CreateSeason, Store, closed, reset_points, create}
use paya_dev.Seasons.Separate.{IsSeparate, create-IsSeparate}
use paya_dev.Finalizer
use paya_dev.Finalizer.{CreatorEvent, Match, both_done, trigger_finalization}
use paya_dev.Finalizer.Ticks.{is_final, trigger_waits_for_results}
use paya_dev.Tests.Samples.{ann}

-- From 100 to 200, under way.
abbrev spring : Season
spring = record {
  id = 1;
  season_number = 1;
  starts_at = 100;
  ends_at = 200;
  reward_pool_stroops = 50;
  is_active = true;
  is_finalized = false;
  top_winner = none;
  on_chain_season_id = none;
  soroban_tx_hash = none;
}

abbrev summer : CreateSeason
summer = record {
  season_number = 2;
  start_time = some 200;
  end_time = some 300;
  reward_pool_stroops = 60;
  sync_soroban = true;
}

abbrev leading : User
leading = record ann { season_points = 12 }

abbrev in_spring : Store (memory Season) (memory User)
in_spring = record { seasons = spring ∷ []; users = leading ∷ []; calls = []; notified = [] }

in_spring-IsSeparate : IsSeparate (memory Season) (memory User) in_spring
in_spring-IsSeparate = record { single = λ t. ground arith; numbered = λ n. ground arith }

create-IsSeparate_example :
    IsSeparate (memory Season) (memory User) (create 250 (some (8, 9)) 2 summer in_spring).1
create-IsSeparate_example =
    create-IsSeparate (memory Season) (memory User) 250 (some (8, 9)) 2 summer in_spring
      in_spring-IsSeparate

abbrev after_spring : Store (memory Season) (memory User)
after_spring = record {
  seasons = closed (some 1) spring ∷ [];
  users = reset_points leading ∷ [];
  calls = [];
  notified = 101 ∷ [];
}

abbrev open_event : CreatorEvent
open_event = record {
  id = 3;
  on_chain_event_id = 33;
  end_time = 100;
  is_finalized = false;
  is_cancelled = false;
}

abbrev two_events : Finalizer.Store (memory CreatorEvent) (memory Match)
two_events = record {
  events = open_event ∷ record open_event { id = 4; on_chain_event_id = 34 } ∷ [];
  matches =
      record { id = 1; event = 3; result_submitted = false }
      ∷ record { id = 2; event = 4; result_submitted = true }
      ∷ [];
  calls = [];
}

trigger_waits_for_results_example :
    count
      (memory CreatorEvent)
      (is_final 3)
      (trigger_finalization
        (memory CreatorEvent)
        (memory Match)
        200
        (λ e. both_done)
        two_events).0.events
    ≡ 0
trigger_waits_for_results_example =
    trigger_waits_for_results (memory CreatorEvent) (memory Match) 200 3 (λ e. both_done) two_events
      (omega arith)
