-- ===== src/Admin/Examples.antt =====
-- Broadcasts at concrete inputs.
use atlasarb.Prelude.{true, false, none, List, [], ◌∷◌, ◌≡◌, refl, arith, ◌⊎◌}
use atlasarb.Users.{UserProfile}
use atlasarb.Access.Examples.{sample_user}
use atlasarb.Admin.{
  Job, sent, get_job, required, confirm_broadcast, recipients_for, resolve_recipients,
}
use atlasarb.Admin.TwoPerson.{BroadcastOp, written, confirmed, broadcast_run}
use atlasarb.Admin.Backed.{Draft}
use atlasarb.Admin.Handed.{IsAuthorised, broadcast_two_person}
use atlasarb.Admin.Resends.{confirm_sent_again}

abbrev some_users : List UserProfile
some_users = sample_user ∷ []

abbrev broadcast_ops : List BroadcastOp
broadcast_ops = written some_users 1 "all" none "hello" false false ∷ confirmed 0 1 ∷ []

broadcast_two_person_example :
    let handed = (recipients_for false some_users 0 (broadcast_run false broadcast_ops [])).0 in
    (handed ≡ [])
    ⊎ (d : Draft) × (handed ≡ resolve_recipients false d.kind d.value some_users)
      × IsAuthorised false broadcast_ops 0 d
broadcast_two_person_example = broadcast_two_person false false broadcast_ops some_users 0

handed_to : (recipients_for false some_users 0 (broadcast_run false broadcast_ops [])).0 ≡ 7 ∷ []
unfolding recipients_for broadcast_run
handed_to = refl

abbrev sent_job : Job
sent_job = record {
  admin_id = 1;
  target_type = "all";
  target_value = none;
  body = "hello";
  is_template = false;
  status = sent;
  recipients = 1;
  confirmations = 1 ∷ [];
}

confirm_sent_again_example :
    let again = confirm_broadcast 0 1 (sent_job ∷ []) in
    (again.0 ≡ true)
    × ((recipients_for false some_users 0 again.1).0
        ≡ resolve_recipients false "all" none some_users)
unfolding get_job required
confirm_sent_again_example =
    confirm_sent_again false some_users 0 1 (sent_job ∷ []) sent_job refl (omega arith)
