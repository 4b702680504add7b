-- ===== src/Tests/Moderating.antt =====
-- The flags and the disputes service on tables held in memory.
use paya_dev.Base.{◌≤◌, ◌≡◌, refl, true, ◌&&◌, not, none, some, List, [], ◌∷◌, arith}
use paya_dev.Base.Action.{ok, is_ok}
use paya_dev.Entities.{User, Market, is_user}
use paya_dev.Table.{count}
use paya_dev.Table.Memory.{memory}
use paya_dev.Moderation.{
  Flag, CreateFlag, ResolveFlag, Store, pending, ban_user, flag_resolved, settled, banned,
  resolve_flag, is_open,
}
use paya_dev.Moderation.Flagging.{
  Request, raises, resolves, handle_all, IsSingle, flags_stay_single,
}
use paya_dev.Moderation.Resolving.{resolve_flag_bans_reporter}
use paya_dev.Disputes
use paya_dev.Disputes.Records
use paya_dev.Disputes.{Dispute, record_dispute, is_about, create, check_dispute_window}
use paya_dev.Disputes.Window.{create_accepts}
use paya_dev.Disputes.Records.{creates, works, disputes_stay_single}
use paya_dev.Tests.Samples.{ann, derby}

abbrev bea : User
bea = record ann { id = 2; stellar_address = 102 }

abbrev complaint : CreateFlag
complaint = record { market_id = 5; reason = 1; description = none }

-- Raised by `bea` on the market of `ann`.
abbrev beas_flag : Flag
beas_flag = record {
  id = 6;
  market = 5;
  user = 2;
  reason = 1;
  status = pending;
  description = none;
  resolution_action = none;
  admin_notes = none;
  resolved_by = none;
  resolved_at = none;
  created_at = 10;
}

abbrev ban : ResolveFlag
ban = record { action = ban_user; admin_notes = none }

abbrev flagged : Store (memory Flag) (memory Market) (memory User)
flagged = record {
  flags = beas_flag ∷ [];
  markets = derby ∷ [];
  users = ann ∷ bea ∷ [];
  activities = [];
}

flagged-IsSingle : IsSingle (memory Flag) (memory Market) (memory User) flagged.flags
flagged-IsSingle u m = ground arith

abbrev some_requests : List Request
some_requests = raises 20 7 2 complaint ∷ resolves 21 6 ban 9 ∷ raises 22 8 2 complaint ∷ []

flags_stay_single_example :
    count
      (memory Flag)
      (is_open 2 5)
      (handle_all (memory Flag) (memory Market) (memory User) some_requests flagged).flags
    ≤ 1
flags_stay_single_example =
    flags_stay_single (memory Flag) (memory Market) (memory User) some_requests flagged 2 5
      flagged-IsSingle

abbrev after_ban : Store (memory Flag) (memory Market) (memory User)
after_ban = record {
  flags = settled 30 9 ban beas_flag ∷ [];
  markets = derby ∷ [];
  users = ann ∷ banned 30 9 1 bea ∷ [];
  activities = flag_resolved 9 6 ban_user ∷ [];
}

ban_runs : resolve_flag 30 6 ban 9 flagged ≡ (ok (settled 30 9 ban beas_flag), after_ban)
unfolding resolve_flag
ban_runs = refl

resolve_flag_bans_reporter_example :
    (count (memory User) (λ x. is_user 2 x && not x.is_banned) after_ban.users ≡ 0)
    × (count (memory User) (λ x. is_user 1 x && x.is_banned) after_ban.users ≡ 0)
    × (after_ban.markets ≡ flagged.markets)
resolve_flag_bans_reporter_example =
    resolve_flag_bans_reporter (memory Flag) (memory Market) (memory User) 30 6 9 1 ban flagged
      after_ban (settled 30 9 ban beas_flag) ban_runs refl (λ e. omega arith)

abbrev decided_derby : Market
decided_derby = record derby {
  is_resolved = true;
  resolved_outcome = some 2;
  resolved_at = some 1500;
}

abbrev undisputed : Disputes.Store (memory Dispute) (memory Market)
undisputed = record { disputes = []; markets = decided_derby ∷ []; tasks = []; calls = [] }

create_accepts_example : is_ok (create 2000 1 5 3 ann undisputed) ≡ true
unfolding check_dispute_window
create_accepts_example = create_accepts (memory Dispute) (memory Market) 2000 1 5 3 ann undisputed

disputes_stay_single_example :
    count
      (memory Dispute)
      (is_about 5)
      (Records.handle_all
        (memory Dispute)
        (memory Market)
        (creates 2000 1 5 3 ann
          ∷ creates 2001 2 5 4 bea
          ∷ works (some 70) (record_dispute 1 55 3)
          ∷ [])
        undisputed).disputes
    ≤ 1
disputes_stay_single_example =
    disputes_stay_single (memory Dispute) (memory Market)
      (creates 2000 1 5 3 ann
        ∷ creates 2001 2 5 4 bea
        ∷ works (some 70) (record_dispute 1 55 3)
        ∷ [])
      undisputed 5 (λ k. omega arith)
