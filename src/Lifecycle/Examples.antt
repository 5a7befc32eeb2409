-- ===== src/Lifecycle/Examples.antt =====
-- The theorems on runs at work: a learner opens a terminal, submits, and the job is graded; and
-- somebody registers.
use painkiller.Prelude.{◌≡◌, ◌⊎◌, pos, List, codes, text_eq, refl, true, some, none, [], arith}
use painkiller.Models.{grade_attempt}
use painkiller.Store.{World, Job, attempt_payload}
use painkiller.Example.{shop, calm}
use painkiller.Lifecycle.Server.{
  step, Runs, stay, after, open_terminal, post_submit, run_job, post_register,
}
use painkiller.Lifecycle.Admins.{Runs-admin_only}
use painkiller.Auth.{Vault}
use painkiller.Admin.Guard.{admin_only}
use painkiller.Admin.Listing.{AdminTestResponse, list_all_tests}
use painkiller.Http.{Handler, unauthorized, forbidden, not_signed_in, is_forbidden}
use painkiller.Store.Constraints.{Unique}
use painkiller.Store.Table.{has}
use painkiller.Lifecycle.Writes.{◌↝*◌}
use painkiller.Lifecycle.Steps.{Runs-writes}
use painkiller.Lifecycle.Consistent.{IsConsistent}
use painkiller.Lifecycle.Constraints.{Runs-IsConsistent}
use painkiller.Lifecycle.Live.{AllLive, Runs-AllLive}
use painkiller.Lifecycle.History.{Continues, Runs-Continues}

abbrev opened : World
opened = step calm none (open_terminal true []) shop

abbrev submitted_then : World
submitted_then = step calm none (post_submit (some 1) (some 6)) opened

abbrev grade_job : Job
grade_job = record { kind = grade_attempt; payload = attempt_payload 6; scheduled_at = none }

abbrev graded : World
graded = step calm none (run_job grade_job) submitted_then

graded-Runs : Runs none shop graded
graded-Runs =
    after (after (after stay calm (open_terminal true [])) calm (post_submit (some 1) (some 6)))
      calm (run_job grade_job)

Runs-writes_example : shop ↝* graded
Runs-writes_example = Runs-writes none shop graded graded-Runs

shop-IsConsistent : IsConsistent shop
unfolding Unique has
shop-IsConsistent = (
  (
    ((refl, tt), (tt, tt)),
    ((refl, tt), (tt, tt)),
    ((refl, tt), (refl, tt)),
    ((refl, tt), (refl, tt)),
  ),
  (
    ((refl, tt), (tt, tt)),
    ((refl, tt), ((refl, refl, omega arith), tt)),
    ((refl, tt), ((refl, refl, omega arith), tt)),
    ((refl, (refl, (refl, (refl, tt)))), (refl, (refl, (refl, (refl, tt))))),
    ((refl, tt), (refl, tt)),
    ((refl, tt), ((refl, refl), tt)),
  ),
)

Runs-IsConsistent_example : IsConsistent graded
Runs-IsConsistent_example = Runs-IsConsistent none shop graded graded-Runs shop-IsConsistent

Runs-Continues_example : Continues shop.attempts graded.attempts
Runs-Continues_example = Runs-Continues none shop graded graded-Runs

Runs-AllLive_example : AllLive graded.attempts
Runs-AllLive_example = Runs-AllLive none shop graded graded-Runs (refl, (refl, (refl, (refl, tt))))

abbrev vault : Vault
vault = record {
  hash_password = λ _ p. some p;
  compare = text_eq;
  sign = λ _. some [];
  parse = λ _ _. none;
  expiry = pos 86400000000000;
}

abbrev joined : World
joined = step calm none (post_register vault (some (codes "ann", codes "word"))) shop

abbrev listing : Handler (List AdminTestResponse)
listing = list_all_tests calm

Runs-admin_only_example :
    (((admin_only calm (some 102) listing joined).0 ≡ unauthorized not_signed_in)
      ⊎ ((admin_only calm (some 102) listing joined).0 ≡ forbidden is_forbidden))
    × ((admin_only calm (some 102) listing joined).1
        ≡ record joined { calls = (admin_only calm (some 102) listing joined).1.calls })
Runs-admin_only_example =
    Runs-admin_only none calm 102 listing shop joined
      (after stay calm (post_register vault (some (codes "ann", codes "word")))) refl
