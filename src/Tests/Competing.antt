-- ===== src/Tests/Competing.antt =====
-- The competitions service on tables held in memory.
use paya_dev.Base.{◌+◌, ◌≤◌, ◌<◌, ◌≡◌, ◌↔◌, refl, true, false, none, [], ◌∷◌, arith, inl}
use paya_dev.Base.Int.{pos, ◌+ℤ◌}
use paya_dev.Base.Action.{ok}
use paya_dev.Table.{count}
use paya_dev.Table.Memory.{memory}
use paya_dev.Competitions.{
  Competition, Participant, Store, public_visible, is_in, is_member, join, leave,
}
use paya_dev.Competitions.Status.{active, competition_status, passes_status, status_iff_listed}
use paya_dev.Competitions.Members.{IsCounted}
use paya_dev.Competitions.Joining.{
  join-IsCounted, join_within_capacity, leave-IsCounted, leave_removes,
}
use paya_dev.Competitions.Rank.{RankStore, UserRank, rank_of, percentile_of, my_rank, rank_order}

-- From 100 to 200, for two participants, of whom one is there.
abbrev cup : Competition
cup = record {
  id = 4;
  title = 0;
  description = 0;
  start_time = 100;
  end_time = 200;
  prize_pool_stroops = pos 0;
  max_participants = 2;
  participant_count = pos 1;
  is_finalized = false;
  is_cancelled = false;
  visibility = public_visible;
  invite_code = none;
  creator = 1;
  created_at = 0;
}

abbrev bob : Participant
bob = record { id = 21; user = 2; competition = 4; score = 10; joined_at = 50 }

abbrev cay : Participant
cay = record { id = 22; user = 3; competition = 4; score = 0; joined_at = 60 }

abbrev MemoryStore : Type 0
MemoryStore = Store (memory Competition) (memory Participant)

abbrev with_bob : MemoryStore
with_bob = record { competitions = cup ∷ []; participants = bob ∷ [] }

abbrev with_both : MemoryStore
with_both = record {
  competitions = record cup { participant_count = pos 2 } ∷ [];
  participants = cay ∷ bob ∷ [];
}

with_bob-IsCounted : IsCounted (memory Competition) (memory Participant) with_bob
with_bob-IsCounted = record {
  unique = λ k. ground arith;
  unique_ids = λ k. ground arith;
  single = λ u k. ground arith;
  counted = λ k. ground arith;
}

join-IsCounted_example :
    IsCounted (memory Competition) (memory Participant) (join 60 22 4 3 with_bob).1
join-IsCounted_example =
    join-IsCounted (memory Competition) (memory Participant) 60 22 4 3 with_bob with_bob-IsCounted
      refl

join_runs : join 60 22 4 3 with_bob ≡ (ok cay, with_both)
unfolding join ◌+ℤ◌
join_runs = refl

join_within_capacity_example :
    (count (memory Participant) (is_in 4) with_both.participants ≡ 1 + 1)
    × (count (memory Participant) (is_in 4) with_both.participants ≤ 2)
join_within_capacity_example =
    join_within_capacity (memory Competition) (memory Participant) 60 22 4 3 with_bob with_both cup
      cay refl join_runs (omega arith)

abbrev emptied : MemoryStore
emptied = record { competitions = record cup { participant_count = pos 0 } ∷ []; participants = [] }

leave-IsCounted_example :
    IsCounted (memory Competition) (memory Participant) (leave 60 4 2 with_bob).1
leave-IsCounted_example =
    leave-IsCounted (memory Competition) (memory Participant) 60 4 2 with_bob with_bob-IsCounted

leave_runs : leave 60 4 2 with_bob ≡ (ok tt, emptied)
unfolding leave ◌+ℤ◌
leave_runs = refl

leave_removes_example :
    (count (memory Participant) (is_member 2 4) emptied.participants ≡ 0)
    × (count (memory Participant) (is_in 4) emptied.participants + 1 ≡ 1)
leave_removes_example =
    leave_removes (memory Competition) (memory Participant) 60 4 2 with_bob emptied
      with_bob-IsCounted leave_runs

status_iff_listed_example :
    (passes_status active cup 150 ≡ true) ↔ (competition_status cup 150 ≡ active)
status_iff_listed_example = status_iff_listed active cup 150 (omega arith)

rank_order_example :
    rank_of (memory Participant) 4 bob with_both.participants
    < rank_of (memory Participant) 4 cay with_both.participants
rank_order_example =
    rank_order (memory Competition) (memory Participant) 4 2 bob cay with_both.participants refl
      (inl (omega arith))

abbrev ranking : RankStore (memory Competition) (memory Participant)
ranking = record { competitions = cup ∷ []; participants = cay ∷ bob ∷ []; rank_cache = [] }

abbrev cays_rank : UserRank
cays_rank = record { rank = 2; score = 0; total_participants = 2; percentile = 5000 }

abbrev ranked : RankStore (memory Competition) (memory Participant)
ranked = record ranking { rank_cache = ((4, 3), record { rank = cays_rank; timestamp = 70 }) ∷ [] }

my_rank_runs : my_rank 70 4 3 ranking ≡ (ok cays_rank, ranked)
unfolding my_rank rank_of percentile_of
my_rank_runs = refl
